-- ===== src/IngestionHandler/Background.antt =====
-- What the background run of Trigger does with the articles that the pipeline found.
use mathlib.Core.List.{append_assoc, append-nil}
use quant_indonesia_scraping.Prelude.{
  ℕ, zero, suc, ◌+◌, ◌≡◌, refl, Bool, true, false, Option, none, some, List, [], ◌∷◌, ◌++◌,
  if◌then◌else◌, length, take, Text, Bool-cases, arith, inl, inr, ap, ◌∙◌,
}
use quant_indonesia_scraping.Domain.{NewsArticle}
use quant_indonesia_scraping.Broadcast.{IngestionEvent}
use quant_indonesia_scraping.IngestionHandler.{
  IngestError, is_duplicate, message_of, note, RunLog, cancelled_event, start_event, progress_event,
  done_event, ingest_one, ingest_all, begun, close_run, background,
}

abbrev kept : Option IngestError → List Text
kept none = []
kept (some err) = if is_duplicate err then [] else message_of err ∷ []

-- How many of `n` rounds from round `i` on are made before the context is done.
abbrev pub rounds : (ℕ → Bool) → ℕ → ℕ → ℕ
rounds done i zero = 0
rounds done i (suc n) = elim (done i) [ true ↦ 0 | false ↦ suc (rounds done (i + 1) n) ]

-- The context is done before one of the rounds.
abbrev pub stops : (ℕ → Bool) → ℕ → ℕ → Bool
stops done i zero = false
stops done i (suc n) = elim (done i) [ true ↦ true | false ↦ stops done (i + 1) n ]

note_lem : (o : Option IngestError) (errors : List Text) → note o errors ≡ errors ++ kept o
unfolding note
note_lem none errors = rw append-nil
note_lem (some err) errors = elim (Bool-cases (is_duplicate err)) [
  | inl e ↦ rw (e, append-nil)
  | inr e ↦ rw e refl
]

module _ {F : Type 0} where
  -- The messages of the errors of Ingest that are no duplicates, in order.
  abbrev pub failures : (NewsArticle F → Option IngestError) → List (NewsArticle F) → List Text
  failures ingest [] = []
  failures ingest (a ∷ rest) = kept (ingest a) ++ failures ingest rest

  -- A progress event for each article, counted from `i`.
  abbrev pub progress_from : ℕ → ℕ → List (NewsArticle F) → List (IngestionEvent F)
  progress_from i total [] = []
  progress_from i total (a ∷ rest) = progress_event i total a ∷ progress_from (i + 1) total rest

  abbrev ending : (ℕ → Bool) → ℕ → ℕ → List (IngestionEvent F)
  ending done i n = if stops done i n then cancelled_event ∷ [] else []

  module _ (done : ℕ → Bool) (ingest : NewsArticle F → Option IngestError) (total : ℕ) where
    abbrev from : ℕ → List (NewsArticle F) → RunLog F → RunLog F
    from i articles l = ingest_all done ingest i total articles l

    ingested_lem :
        (i : ℕ) (articles : List (NewsArticle F)) (l : RunLog F)
        → (from i articles l).ingested
          ≡ l.ingested ++ take (rounds done i (length articles)) articles
    unfolding ingest_all ingest_one
    ingested_lem i [] l = rw append-nil
    ingested_lem i (a ∷ rest) l = elim (Bool-cases (done i)) [
      | inl e ↦ simp (e, ingest_all, append-nil)
      | inr e ↦
          rw (e, ingest_all)
            (simp (ingested_lem (i + 1) rest (ingest_one ingest i total a l), append_assoc))
    ]

    errors_lem :
        (i : ℕ) (articles : List (NewsArticle F)) (l : RunLog F)
        → (from i articles l).errors
          ≡ l.errors ++ failures ingest (take (rounds done i (length articles)) articles)
    unfolding ingest_all ingest_one
    errors_lem i [] l = rw append-nil
    errors_lem i (a ∷ rest) l = elim (Bool-cases (done i)) [
      | inl e ↦ simp (e, ingest_all, append-nil)
      | inr e ↦
          rw (e, ingest_all)
            (errors_lem (i + 1) rest (ingest_one ingest i total a l)
              ∙ rw note_lem (append_assoc l.errors (kept (ingest a)) _))
    ]

    events_lem :
        (i : ℕ) (articles : List (NewsArticle F)) (l : RunLog F)
        → (from i articles l).events
          ≡ l.events
            ++ (progress_from i total (take (rounds done i (length articles)) articles)
                ++ ending done i (length articles))
    unfolding ingest_all ingest_one
    events_lem i [] l = rw append-nil
    events_lem i (a ∷ rest) l = elim (Bool-cases (done i)) [
      | inl e ↦ simp (e, ingest_all)
      | inr e ↦
          rw (e, ingest_all)
            (simp (events_lem (i + 1) rest (ingest_one ingest i total a l), append_assoc))
    ]

    stopped_lem :
        (i : ℕ) (articles : List (NewsArticle F)) (l : RunLog F)
        → l.stopped ≡ false
        → (from i articles l).stopped ≡ stops done i (length articles)
    unfolding ingest_all ingest_one
    stopped_lem i [] l h = h
    stopped_lem i (a ∷ rest) l h = elim (Bool-cases (done i)) [
      | inl e ↦ simp (e, ingest_all)
      | inr e ↦ rw (e, ingest_all) (stopped_lem (i + 1) rest (ingest_one ingest i total a l) h)
    ]

  close_stopped :
      (n : ℕ) (errs : List Text) (l : RunLog F) → l.stopped ≡ true → close_run n errs l ≡ l
  unfolding close_run
  close_stopped n errs l h = ground arith

  close_through :
      (n : ℕ) (errs : List Text) (l : RunLog F)
      → l.stopped ≡ false
      → close_run n errs l
        ≡ record l { events = l.events ++ (done_event n ∷ []); errors = l.errors ++ errs }
  unfolding close_run
  close_through n errs l h = ground arith

  -- The run gives the articles to Ingest one after the other, each with its progress event, until
  -- its context is done, and logs the errors that are no duplicates. If it gets through, it ends
  -- with `done` and the pipeline's errors behind its own, else with `cancelled`.
  pub background_lem :
      (done : ℕ → Bool) (ingest : NewsArticle F → Option IngestError) (feeds : ℕ)
      (articles : List (NewsArticle F)) (errs : List Text)
      → let n = length articles in
        let handled = take (rounds done 0 n) articles in
        let log = background done ingest feeds articles errs in
        (log.ingested ≡ handled)
        × (log.stopped ≡ stops done 0 n)
        × (log.events
            ≡ start_event feeds ∷ progress_from 0 n handled
              ++ ((if stops done 0 n then cancelled_event else done_event n) ∷ []))
        × (log.errors ≡ failures ingest handled ++ (if stops done 0 n then [] else errs))
  unfolding background
  background_lem done ingest feeds articles errs =
      let n = length articles in
      let l = ingest_all done ingest 0 n articles (begun feeds) in
      let sent = events_lem done ingest n 0 articles (begun feeds) in
      let got = ingested_lem done ingest n 0 articles (begun feeds) in
      let said = errors_lem done ingest n 0 articles (begun feeds) in
      let over = stopped_lem done ingest n 0 articles (begun feeds) refl in
      elim (Bool-cases (stops done 0 n)) [
        | inl e ↦
            rw (close_stopped n errs l (over ∙ e), e)
              (got, over ∙ e, rw e at sent, said ∙ rw append-nil)
        | inr e ↦
            rw (close_through n errs l (over ∙ e), e)
              (got, over ∙ e, rw (sent, e, append-nil), ap (λ x. x ++ errs) said)
      ]
