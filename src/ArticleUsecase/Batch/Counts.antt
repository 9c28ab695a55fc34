-- ===== src/ArticleUsecase/Batch/Counts.antt =====
-- How ReprocessUnanalyzed counts.
use quant_indonesia_scraping.Prelude.{
  ℕ, zero, suc, ◌+◌, ◌≡◌, ◌⊎◌, refl, sym, ◌∙◌, Bool, true, false, ◌&&◌, Option, some, List, [], ◌∷◌,
  Text, length, length-append, ltb, if◌then◌else◌, inl, inr, Option-cases, arith, Bool-cases,
  is_nil, is_empty,
}
use quant_indonesia_scraping.Domain.{NewsArticle, NewsStockTag, ExtractedTag, AnalysisResult}
use quant_indonesia_scraping.ArticleUsecase.{
  Request, create, update, create_tags, upsert, upsert_executive, Log, analyzed, process_tags,
  associate, upsert_companies, upsert_executives, save_executives, is_stock, is_executive,
  primary_symbol, raw_sector,
}
use quant_indonesia_scraping.ArticleUsecase.Tags.{IsSound, associate-IsSound}
use quant_indonesia_scraping.ArticleUsecase.Batch.{
  Batch, save_one, reprocess_one, reprocess_all, reprocess_listed, emit, begun, close_batch,
  start_event, progress_event,
}

-- How many of `n` rounds from round `i` on are made: the loop stops before a later round than the
-- first if the context is done.
abbrev pub rounds : (ℕ → Bool) → ℕ → ℕ → ℕ
rounds done i zero = 0
rounds done i (suc n) = elim (ltb 0 i && done i) [ true ↦ 0 | false ↦ suc (rounds done (i + 1) n) ]

-- Successes and errors together.
abbrev pub counted : {F : Type 0} → Batch F → ℕ
counted b = b.success_count + length b.errs

module _ {F : Type 0} (answers : Log F → Request F → Option Text) (show : F → Text) where
  reprocess_one-counted :
      (now i total : ℕ) (a : NewsArticle F) (r : Text ⊎ AnalysisResult F) (b : Batch F)
      → counted (reprocess_one answers show now i total a r b) ≡ counted b + 1
  unfolding reprocess_one save_one
  reprocess_one-counted now i total a (inl err) b = rw length-append (omega arith)
  reprocess_one-counted now i total a (inr r) b =
      elim (Option-cases (answers b.log (update (analyzed now r a)))) [
        | inl e ↦ rw (e, reprocess_one, save_one) (omega arith)
        | inr (err, e) ↦ rw (e, reprocess_one, save_one, length-append) (omega arith)
      ]

  reprocess_one-IsSound :
      (now i total : ℕ) (a : NewsArticle F) (r : Text ⊎ AnalysisResult F) (b : Batch F)
      → IsSound answers b.log
      → IsSound answers (reprocess_one answers show now i total a r b).log
  unfolding reprocess_one save_one
  reprocess_one-IsSound now i total a (inl err) b h = h
  reprocess_one-IsSound now i total a (inr r) b h =
      elim (Option-cases (answers b.log (update (analyzed now r a)))) [
        | inl e ↦
            rw (e, reprocess_one, save_one)
              (associate-IsSound answers (analyzed now r a).id r.tags
                (update (analyzed now r a) ∷ b.log) h)
        | inr (err, e) ↦ rw (e, reprocess_one, save_one) h
      ]

  close_batch-counted :
      (total : ℕ) (b : Batch F)
      → (counted (close_batch total b) ≡ counted b)
        × ((close_batch total b).success_count ≡ b.success_count)
        × ((close_batch total b).log ≡ b.log)
  close_batch-counted total b = elim (Bool-cases b.stopped) [
    | inl e ↦ simp e (refl, refl, refl)
    | inr e ↦ simp e (refl, refl, refl)
  ]

  -- The updates that gave no error.
  abbrev pub saved : Log F → ℕ
  saved [] = 0
  saved (create a ∷ l) = saved l
  saved (update a ∷ l) = (if is_nil (answers l (update a)) then 1 else 0) + saved l
  saved (create_tags ts ∷ l) = saved l
  saved (upsert s ∷ l) = saved l
  saved (upsert_executive e ∷ l) = saved l

  saved_failed :
      (a : NewsArticle F) (l : Log F) (err : Text)
      → answers l (update a) ≡ some err
      → saved (update a ∷ l) ≡ saved l
  saved_failed a l err h = ground (arith, h)

  upsert_companies-saved :
      (news_id : ℕ) (raw : Text) (ts : List (ExtractedTag F)) (l : Log F)
      → saved (upsert_companies answers news_id raw ts l).1 ≡ saved l
  unfolding upsert_companies
  upsert_companies-saved news_id raw [] l = refl
  upsert_companies-saved news_id raw (t ∷ ts) l = elim (Bool-cases (is_stock t)) [
    | inl e ↦ rw (e, upsert_companies) (upsert_companies-saved news_id raw ts _)
    | inr e ↦ rw (e, upsert_companies) (upsert_companies-saved news_id raw ts l)
  ]

  upsert_executives-saved :
      (symbol : Text) (ts : List (ExtractedTag F)) (l : Log F)
      → saved (upsert_executives symbol ts l) ≡ saved l
  unfolding upsert_executives
  upsert_executives-saved symbol [] l = refl
  upsert_executives-saved symbol (t ∷ ts) l = elim (Bool-cases (is_executive t)) [
    | inl e ↦ rw (e, upsert_executives) (upsert_executives-saved symbol ts _)
    | inr e ↦ rw (e, upsert_executives) (upsert_executives-saved symbol ts l)
  ]

  save_executives-saved :
      (tags : List (ExtractedTag F)) (l : Log F) → saved (save_executives tags l) ≡ saved l
  unfolding save_executives
  save_executives-saved tags l = elim (Bool-cases (is_empty (primary_symbol tags))) [
    | inl e ↦ rw (e, save_executives) refl
    | inr e ↦ rw (e, save_executives) (upsert_executives-saved (primary_symbol tags) tags l)
  ]

  associate-saved :
      (ts : List (NewsStockTag F)) (l : Log F) → saved (associate answers ts l).1 ≡ saved l
  unfolding associate
  associate-saved [] l = refl
  associate-saved (t ∷ ts) l = refl

  tags-saved :
      (news_id : ℕ) (tags : List (ExtractedTag F)) (l : Log F)
      → let (ts, l') = process_tags answers news_id tags l in
        saved (associate answers ts l').1 ≡ saved l
  unfolding process_tags
  tags-saved news_id tags l =
      associate-saved _ _
      ∙ save_executives-saved tags _
      ∙ upsert_companies-saved news_id (raw_sector tags) tags l

  -- Each success is an update that the database accepted.
  abbrev pub IsTrue : Log F → Batch F → Type 0
  IsTrue before b = b.success_count + saved before ≡ saved b.log

  reprocess_one-IsTrue :
      (now i total : ℕ) (a : NewsArticle F) (r : Text ⊎ AnalysisResult F) (before : Log F)
      (b : Batch F)
      → IsTrue before b
      → IsTrue before (reprocess_one answers show now i total a r b)
  unfolding reprocess_one save_one
  reprocess_one-IsTrue now i total a (inl err) before b h = h
  reprocess_one-IsTrue now i total a (inr r) before b h =
      let tags = tags-saved (analyzed now r a).id r.tags (update (analyzed now r a) ∷ b.log) in
      elim (Option-cases (answers b.log (update (analyzed now r a)))) [
        | inl e ↦ rw (e, reprocess_one, save_one) (omega (arith, h, rw (e, saved) at tags))
        | inr (err, e) ↦
            rw (e, reprocess_one, save_one) (h ∙ sym (saved_failed (analyzed now r a) b.log err e))
      ]

  module _ (now : ℕ → ℕ) (analyze : ℕ → NewsArticle F → Text ⊎ AnalysisResult F)
      (done : ℕ → Bool) where
    reprocess_all-counted :
        (i total : ℕ) (articles : List (NewsArticle F)) (b : Batch F)
        → let b' = reprocess_all answers show now analyze done i total articles b in
          (counted b' ≡ counted b + rounds done i (length articles))
          × (IsSound answers b.log → IsSound answers b'.log)
    unfolding reprocess_all
    reprocess_all-counted i total [] b = (omega arith, λ h. h)
    reprocess_all-counted i total (a ∷ rest) b = elim (Bool-cases (ltb 0 i && done i)) [
      | inl e ↦ rw (e, reprocess_all, rounds, emit) (omega arith, λ h. h)
      | inr e ↦
          let b1 = emit (progress_event i total a) b in
          let b2 = reprocess_one answers show (now i) i total a (analyze i a) b1 in
          let one = reprocess_one-counted (now i) i total a (analyze i a) b1 in
          let more = reprocess_all-counted (i + 1) total rest b2 in
          rw (e, reprocess_all, rounds)
            (
              omega (arith, one, more.0),
              λ h. more.1 (reprocess_one-IsSound (now i) i total a (analyze i a) b1 h),
            )
    ]

    reprocess_all-IsTrue :
        (i total : ℕ) (articles : List (NewsArticle F)) (before : Log F) (b : Batch F)
        → IsTrue before b
        → IsTrue before (reprocess_all answers show now analyze done i total articles b)
    unfolding reprocess_all
    reprocess_all-IsTrue i total [] before b h = h
    reprocess_all-IsTrue i total (a ∷ rest) before b h = elim (Bool-cases (ltb 0 i && done i)) [
      | inl e ↦ rw (e, reprocess_all) h
      | inr e ↦
          rw (e, reprocess_all)
            (reprocess_all-IsTrue (i + 1) total rest before _ (
              reprocess_one-IsTrue (now i) i total a (analyze i a) before
                (emit (progress_event i total a) b) h))
    ]

    -- Every article that the batch gets to is counted once, as a success or as an error, until the
    -- context is done in the wait before a later article than the first; the successes are the
    -- updates that the database accepted.
    pub reprocess_listed-counted :
        (articles : List (NewsArticle F)) (l : Log F)
        → let b = reprocess_listed answers show now analyze done articles l in
          (counted b ≡ rounds done 0 (length articles)) × (b.success_count + saved l ≡ saved b.log)
    unfolding reprocess_listed
    reprocess_listed-counted [] l = (refl, omega arith)
    reprocess_listed-counted (a ∷ rest) l =
        let total = length (a ∷ rest) in
        let b = begun (start_event total ∷ []) l in
        let b' = reprocess_all answers show now analyze done 0 total (a ∷ rest) b in
        let all = reprocess_all-counted 0 total (a ∷ rest) b in
        let true_all = reprocess_all-IsTrue 0 total (a ∷ rest) l b (omega arith) in
        let (closed, successes, log) = close_batch-counted total b' in
        (omega (arith, closed, all.0), rw (successes, log) true_all)

    -- If the calls made before are sound, those of the batch are: the stocks are listed, and
    -- associations are of saved stocks.
    pub reprocess_listed-IsSound :
        (articles : List (NewsArticle F)) (l : Log F)
        → IsSound answers l
        → IsSound answers (reprocess_listed answers show now analyze done articles l).log
    unfolding reprocess_listed
    reprocess_listed-IsSound [] l h = h
    reprocess_listed-IsSound (a ∷ rest) l h =
        let total = length (a ∷ rest) in
        let b = begun (start_event total ∷ []) l in
        let closed =
          close_batch-counted total
            (reprocess_all answers show now analyze done 0 total (a ∷ rest) b) in
        rw closed.2 ((reprocess_all-counted 0 total (a ∷ rest) b).1 h)
