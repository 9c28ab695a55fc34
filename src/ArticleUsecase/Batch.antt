-- ===== src/ArticleUsecase/Batch.antt =====
-- usecase/article_usecase.go: ReprocessUnanalyzed, over the articles that ListUnprocessed gives.
pub mod Counts
mod Examples
use quant_indonesia_scraping.Prelude.{
  ℕ, ◌⊎◌, inl, inr, ◌+◌, ◌<◌, Bool, true, false, ◌&&◌, Option, none, some, List, [], ◌∷◌, ◌++◌,
  Text, codes, itoa, length, ltb, if◌then◌else◌,
}
use quant_indonesia_scraping.Domain.{NewsArticle, AnalysisResult}
use quant_indonesia_scraping.Broadcast.{IngestionEvent, event}
use quant_indonesia_scraping.ArticleUsecase.{
  Request, update, Log, BatchError, listing_failed, analysis_failed, update_failed, analyzed,
  process_tags, associate,
}

-- The variables of the batch, the calls made and the events broadcast; `stopped` says that the
-- context was done during a wait.
pub record Batch (F : Type 0) : Type 0 where
  pub success_count : ℕ
  pub errs : List BatchError
  pub log : Log F
  pub events : List (IngestionEvent F)
  pub stopped : Bool

-- `current/total`
abbrev counter : ℕ → ℕ → Text
counter current total = itoa current ++ (codes "/" ++ itoa total)

module _ {F : Type 0} where
  abbrev emit : IngestionEvent F → Batch F → Batch F
  emit e b = record b { events = b.events ++ (e ∷ []) }

  abbrev fail : BatchError → Batch F → Batch F
  fail err b = record b { errs = b.errs ++ (err ∷ []) }

  pub none_event : IngestionEvent F
  none_event = event (codes "done") (codes "REPROCESS") 0 0 (codes "No unanalyzed articles found.")

  pub start_event : ℕ → IngestionEvent F
  start_event total =
      event (codes "start") (codes "REPROCESS") 0 total
        (codes "Mulai memproses batch " ++ (itoa total ++ codes " artikel dengan Gemini AI..."))

  pub progress_event : ℕ → ℕ → NewsArticle F → IngestionEvent F
  progress_event i total a = event (codes "progress") (codes "AI_ANALYSIS") (i + 1) total (
      codes "Gemini AI Menganalisis ["
      ++ (counter (i + 1) total ++ (codes "]: \"" ++ (a.title ++ codes "\""))))

  pub error_event : ℕ → ℕ → NewsArticle F → Text → IngestionEvent F
  error_event i total a err = event (codes "error") (codes "AI_ANALYSIS") (i + 1) total (
      codes "❌ AI Gagal ["
      ++ (counter (i + 1) total
          ++ (codes "]: " ++ (a.title ++ (codes " (" ++ (err ++ codes ")"))))))

  -- `show` is the verb %+.2f.
  pub finished_event : (F → Text) → ℕ → ℕ → NewsArticle F → AnalysisResult F → IngestionEvent F
  finished_event show current total a r =
      record (event (codes "log") (codes "AI_ANALYSIS") current total (
        codes "✅ Selesai ["
        ++ (counter current total
            ++ (codes "]: "
                ++ (a.title
                    ++ (codes " ("
                        ++ (r.sentiment_label
                            ++ (codes " | Score: "
                                ++ (show r.sentiment_score ++ codes ")"))))))))) {
                                  sentiment = r.sentiment_label;
                                  score = some r.sentiment_score;
                                }

  pub done_event : ℕ → ℕ → IngestionEvent F
  done_event current total = event (codes "done") (codes "REPROCESS") current total (
      codes "🎉 Reprocess Selesai! "
      ++ (counter current total ++ codes " artikel berhasil dianalisis AI."))

  abbrev close_batch : ℕ → Batch F → Batch F
  close_batch total b = if b.stopped then b else emit (done_event b.success_count total) b

  abbrev begun : List (IngestionEvent F) → Log F → Batch F
  begun events l = record {
    success_count = 0;
    errs = [];
    log = l;
    events = events;
    stopped = false;
  }

  module _ (answers : Log F → Request F → Option Text) (show : F → Text) where
    -- What follows an analysis: the update and the tags, whose errors are only logged.
    pub save_one : ℕ → ℕ → NewsArticle F → AnalysisResult F → Batch F → Batch F
    save_one now total a r b =
        let a' = analyzed now r a in
        let l = update a' ∷ b.log in
        let (ts, l') = process_tags answers a'.id r.tags l in
        let (e, l'') = associate answers ts l' in
        elim (answers b.log (update a')) [
          | some err ↦ record b { errs = b.errs ++ (update_failed a.id err ∷ []); log = l }
          | none ↦ record b {
            success_count = b.success_count + 1;
            log = l'';
            events = b.events ++ (finished_event show (b.success_count + 1) total a r ∷ []);
          }
        ]

    -- One round of the loop after the wait; the analyzer gives an error or a result.
    pub reprocess_one : ℕ → ℕ → ℕ → NewsArticle F → Text ⊎ AnalysisResult F → Batch F → Batch F
    unfolding save_one
    reprocess_one now i total a (inl err) b =
        fail (analysis_failed a.id err) (emit (error_event i total a err) b)
    reprocess_one now i total a (inr r) b = save_one now total a r b

    -- The loop from article `i` on. `analyze` answers the i-th call of the analyzer; `done i` says
    -- whether the context is done in the wait before article i, which the first one does not have.
    module _ (now : ℕ → ℕ) (analyze : ℕ → NewsArticle F → Text ⊎ AnalysisResult F)
        (done : ℕ → Bool) where
      pub reprocess_all : ℕ → ℕ → List (NewsArticle F) → Batch F → Batch F
      reprocess_all i total [] b = b
      reprocess_all i total (a ∷ rest) b =
          let b' = emit (progress_event i total a) b in
          elim (ltb 0 i && done i) [
            | true ↦ record b' { stopped = true }
            | false ↦
                reprocess_all (i + 1) total rest (reprocess_one (now i) i total a (analyze i a) b')
          ]

      -- What follows once ListUnprocessed has given its articles, at most ten.
      pub reprocess_listed : List (NewsArticle F) → Log F → Batch F
      unfolding reprocess_all
      reprocess_listed [] l = begun (none_event ∷ []) l
      reprocess_listed (a ∷ rest) l =
          let total = length (a ∷ rest) in
          close_batch total (reprocess_all 0 total (a ∷ rest) (begun (start_event total ∷ []) l))

      -- `inr` is what ListUnprocessed returned, `inl` its error.
      pub reprocess_unanalyzed : Text ⊎ List (NewsArticle F) → Log F → Batch F
      unfolding reprocess_listed
      reprocess_unanalyzed (inl err) l = fail (listing_failed err) (begun [] l)
      reprocess_unanalyzed (inr articles) l = reprocess_listed articles l
