-- ===== src/ArticleUsecase/Examples.antt =====
-- An article about two banks and an index.
use quant_indonesia_scraping.Prelude.{
  List, ◌+◌, ◌⊎◌, inr, ℕ, ◌≡◌, refl, Bool, Option, none, some, [], ◌∷◌, Text, codes, text_eq, pos,
  length, if◌then◌else◌, upper, trim_space, is_space, inl, ◌==◌,
}
use quant_indonesia_scraping.Float.Decimal.{Decimal, num}
use quant_indonesia_scraping.Domain.{NewsArticle, ExtractedTag, AnalysisResult}
use quant_indonesia_scraping.Sector.{is_blacklisted, holds, blacklist_map, canonical}
use quant_indonesia_scraping.ArticleUsecase.{
  Request, create, create_tags, persisting, upsert, Log, ingest, process_tags, associate,
  upsert_companies, primary_symbol, tag_of, is_stock, is_company,
}
use quant_indonesia_scraping.ArticleUsecase.Tags.{IsSound}
use quant_indonesia_scraping.ArticleUsecase.Ingest.{ingest-IsSound}
use quant_indonesia_scraping.ArticleUsecase.Handled.{IsTried, ingest-Handled}
use quant_indonesia_scraping.ArticleUsecase.Batch.{reprocess_listed}
use quant_indonesia_scraping.ArticleUsecase.Batch.Counts.{
  counted, rounds, saved, reprocess_listed-counted,
}

abbrev article : NewsArticle Decimal
article = record {
  id = 7;
  url_hash = [];
  title = codes "Banks rise";
  url = codes "https://example.com/a";
  source = codes "CNBC";
  summary = codes "short";
  content_raw = codes "text";
  sentiment_score = none;
  sentiment_label = none;
  published_at = none;
  ingested_at = 0;
  processed_at = none;
  created_at = 0;
  updated_at = 0;
  tags = [];
}

abbrev tag : Text → Text → Text → ExtractedTag Decimal
tag kind value ticker = record {
  kind = kind;
  value = value;
  ticker_symbol = ticker;
  relevance_score = num (pos 10_000);
}

abbrev analysis : AnalysisResult Decimal
analysis = record {
  sentiment_score = num (pos 5_000);
  sentiment_label = codes "Bullish";
  summary = [];
  tags =
      tag (codes "company") (codes "BCA") (codes "BBCA")
      ∷ tag (codes "company") (codes "Index") (codes "IHSG")
      ∷ tag (codes "company") (codes "BRI") (codes "BBRI")
      ∷ tag (codes "executive") (codes "Jahja") []
      ∷ [];
}

-- The database refuses the second bank.
abbrev refuses : Log Decimal → Request Decimal → Option Text
refuses l (upsert s) = if text_eq s.symbol (codes "BBRI") then some (codes "timeout") else none
refuses l r = none

abbrev good : Text → Text → Option (AnalysisResult Decimal)
good title content = some analysis

-- One association is created, for the bank that was saved.
one_association :
    associate refuses (process_tags refuses 7 analysis.tags []).0 []
    ≡ (none, create_tags (tag_of 7 (tag (codes "company") (codes "BCA") (codes "BBCA")) ∷ []) ∷ [])
unfolding associate process_tags upsert_companies is_stock is_company tag_of is_blacklisted holds
    blacklist_map canonical trim_space is_space upper
one_association = refl

primary : primary_symbol analysis.tags ≡ codes "BBCA"
unfolding primary_symbol is_company
primary = refl

ingest-IsSound_example : IsSound refuses (ingest refuses 9 good (some article) []).1
ingest-IsSound_example = ingest-IsSound refuses 9 good (some article) [] tt

ingest-Handled_example :
    let (e, l') = ingest refuses 9 good (some article) [] in
    ((m : Text) × (refuses [] (create article) ≡ some m)
      × (e ≡ some (persisting m))
      × (l' ≡ create article ∷ []))
    ⊎ ((refuses [] (create article) ≡ none)
        × IsTried refuses 9 (some analysis) article (create article ∷ []) (e, l'))
ingest-Handled_example = ingest-Handled refuses 9 good article []

-- The analyzer fails for the first article, and the context is done before the third.
abbrev second_only : ℕ → NewsArticle Decimal → Text ⊎ AnalysisResult Decimal
second_only i a = if i == 0 then inl (codes "quota") else inr analysis

abbrev third : ℕ → Bool
third i = i == 2

abbrev three : List (NewsArticle Decimal)
three = article ∷ article ∷ article ∷ []

reprocess_listed-counted_example :
    let b = reprocess_listed refuses (λ v. []) (λ i. i) second_only third three [] in
    (counted b ≡ rounds third 0 (length three))
    × (b.success_count + saved refuses (λ (v : Decimal). []) []
        ≡ saved refuses (λ (v : Decimal). []) b.log)
reprocess_listed-counted_example =
    reprocess_listed-counted refuses (λ v. []) (λ i. i) second_only third three []
