-- ===== src/ArticleUsecase.antt =====
-- usecase/article_usecase.go: Ingest and ReprocessUnanalyzed. The repositories and the analyzer are
-- parameters; what they are asked is recorded.
pub mod Tags
pub mod Ingest
pub mod Handled
pub mod Batch
mod Examples
use quant_indonesia_scraping.Prelude.{
  ℕ, ◌+◌, ◌<◌, Bool, true, false, not, ◌&&◌, Option, none, some, List, [], ◌∷◌, ◌++◌, Text, codes,
  text_eq, is_empty, length, ltb, ◌==◌, if◌then◌else◌, is_nil,
}
use quant_indonesia_scraping.Domain.{
  NewsArticle, NewsStockTag, ExtractedTag, AnalysisResult, Stock, Executive,
}
use quant_indonesia_scraping.Sector.{is_blacklisted, normalize_sector, get_official_company_name}
use quant_indonesia_scraping.Broadcast.{IngestionEvent, event}

-- A call of articleRepo or stockRepo that writes.
pub data Request (F : Type 0) : Type 0 where
  create update : NewsArticle F → Request F
  create_tags : List (NewsStockTag F) → Request F
  upsert : Stock → Request F
  upsert_executive : Executive → Request F

-- The calls made, latest first.
abbrev pub Log : Type 0 → Type 0
Log F = List (Request F)

-- The errors that Ingest returns, by the message that wraps them.
pub data Failure : Type 0 where
  invalid_input : Failure
  persisting updating tagging : Text → Failure

-- The errors of a batch, with the id of the article.
pub data BatchError : Type 0 where
  listing_failed : Text → BatchError
  analysis_failed update_failed : ℕ → Text → BatchError

module _ {F : Type 0} where
  pub is_company : ExtractedTag F → Bool
  is_company t = text_eq t.kind (codes "company") && not (is_empty t.ticker_symbol)

  -- A company that the loop does not skip.
  pub is_stock : ExtractedTag F → Bool
  is_stock t = is_company t && not (is_blacklisted t.ticker_symbol)

  pub raw_sector : List (ExtractedTag F) → Text
  raw_sector [] = []
  raw_sector (t ∷ ts) =
      let rest = raw_sector ts in if text_eq t.kind (codes "sector") then t.value else rest

  pub primary_symbol : List (ExtractedTag F) → Text
  unfolding is_company
  primary_symbol [] = []
  primary_symbol (t ∷ ts) =
      let rest = primary_symbol ts in if is_company t then t.ticker_symbol else rest

  pub stock_of : Text → ExtractedTag F → Stock
  stock_of raw t = record {
    symbol = t.ticker_symbol;
    company_name = get_official_company_name t.ticker_symbol t.value;
    sector = normalize_sector t.ticker_symbol raw;
  }

  pub tag_of : ℕ → ExtractedTag F → NewsStockTag F
  tag_of news_id t = record {
    news_id = news_id;
    symbol = t.ticker_symbol;
    relevance_score = t.relevance_score;
  }

  pub is_executive : ExtractedTag F → Bool
  is_executive t = text_eq t.kind (codes "executive") && not (is_empty t.value)

  -- The calls of UpsertExecutive; an error is only logged.
  upsert_executives : Text → List (ExtractedTag F) → Log F → Log F
  unfolding is_executive
  upsert_executives symbol [] l = l
  upsert_executives symbol (t ∷ ts) l = elim (is_executive t) [
    | true ↦ upsert_executives symbol ts (
        upsert_executive
          (record { symbol = symbol; name = t.value; title = codes "Key Figure / Executive" })
        ∷ l)
    | false ↦ upsert_executives symbol ts l
  ]

  pub save_executives : List (ExtractedTag F) → Log F → Log F
  unfolding upsert_executives primary_symbol
  save_executives tags l =
      if is_empty (primary_symbol tags) then l else upsert_executives (primary_symbol tags) tags l

  -- The article with the analysis; `now` is the clock.
  pub analyzed : ℕ → AnalysisResult F → NewsArticle F → NewsArticle F
  analyzed now r a = record a {
    sentiment_score = some r.sentiment_score;
    sentiment_label = some r.sentiment_label;
    summary = if is_empty r.summary then a.summary else r.summary;
    processed_at = some now;
  }

  -- `answers l r` is the error of the call `r` after the calls `l`.
  module _ (answers : Log F → Request F → Option Text) where
    -- The loop over the tags, which gives the associations to create.
    pub upsert_companies : ℕ → Text → List (ExtractedTag F) → Log F → List (NewsStockTag F) × Log F
    unfolding is_stock is_company stock_of tag_of
    upsert_companies news_id raw [] l = ([], l)
    upsert_companies news_id raw (t ∷ ts) l = elim (is_stock t) [
      | true ↦
          let r : Request F = upsert (stock_of raw t) in
          let (tags, l') = upsert_companies news_id raw ts (r ∷ l) in
          (if is_nil (answers l r) then tag_of news_id t ∷ tags else tags, l')
      | false ↦ upsert_companies news_id raw ts l
    ]

    -- Step 4, and the executives.
    pub process_tags : ℕ → List (ExtractedTag F) → Log F → List (NewsStockTag F) × Log F
    unfolding upsert_companies raw_sector
    process_tags news_id tags l =
        let (ts, l') = upsert_companies news_id (raw_sector tags) tags l in
        (ts, save_executives tags l')

    -- Step 5.
    pub associate : List (NewsStockTag F) → Log F → Option Text × Log F
    associate [] l = (none, l)
    associate (t ∷ ts) l = (answers l (create_tags (t ∷ ts)), create_tags (t ∷ ts) ∷ l)

    pub failed_if : (Text → Failure) → Option Text → Option Failure
    failed_if wrap none = none
    failed_if wrap (some e) = some (wrap e)

    -- Ingest from the update of the article on.
    pub save_analysis : ℕ → AnalysisResult F → NewsArticle F → Log F → Option Failure × Log F
    unfolding process_tags associate failed_if analyzed
    save_analysis now r a l =
        let a' = analyzed now r a in
        let (ts, l') = process_tags a'.id r.tags (update a' ∷ l) in
        let (e, l'') = associate ts l' in
        elim (answers l (update a')) [
          | some err ↦ (some (updating err), update a' ∷ l)
          | none ↦ (failed_if tagging e, l'')
        ]

    -- `analyze` is llmAnalyzer.Analyze, with `none` for an error.
    pub ingest :
        ℕ
        → (Text → Text → Option (AnalysisResult F))
        → Option (NewsArticle F)
        → Log F
        → Option Failure × Log F
    ingest now analyze none l = (some invalid_input, l)
    ingest now analyze (some a) l = elim (answers l (create a)) [
      | some err ↦ (some (persisting err), create a ∷ l)
      | none ↦ elim (analyze a.title a.content_raw) [
        | none ↦ (none, create a ∷ l)
        | some r ↦ save_analysis now r a (create a ∷ l)
      ]
    ]
