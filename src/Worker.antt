-- ===== src/Worker.antt =====
-- ingestion/worker.go and ingestion/pipeline.go: a job with its deduplication, and the collection of
-- the results; pkg/hasher/hasher.go and repository/valkey/dedup.go, which the job uses.
pub mod Dedup
pub mod Collect
pub mod Pool
mod Examples
use quant_indonesia_scraping.Prelude.{
  ℕ, ◌+◌, ◌*◌, ◌≤◌, ◌<◌, ◌≡◌, Bool, true, false, Option, none, some, List, [], ◌∷◌, ◌++◌, Text,
  codes, to_lower, trim_space, take, length, ltb, if◌then◌else◌, ◌⊎◌, inl, inr,
}
use quant_indonesia_scraping.Domain.{NewsArticle}

pub record FeedItem : Type 0 where
  pub title : Text
  pub url : Text
  pub source : Text
  pub summary : Text
  pub published_at : Option ℕ

-- `digest` is MD5, in hexadecimal.
pub md5_hash : (Text → Text) → Text → Text
md5_hash digest input = digest (to_lower (trim_space input))

abbrev pub dedup_ttl : ℕ
dedup_ttl = 7 * 24 * 3600

abbrev pub dedup_key : Text → Text
dedup_key url_hash = codes "dedup:url:" ++ url_hash

-- The Valkey server: the EXISTS and SET commands at a time in seconds; `none` is an error.
pub record Valkey (S : Type 0) : Type 0 where
  pub exists : S → ℕ → Text → Option Bool
  pub set_ex : S → ℕ → Text → ℕ → Option S

-- A key that was set is there until it expires, also after other keys were set.
pub record IsRemembering {S : Type 0} (v : Valkey S) : Type 0 where
  pub sets :
      (s s' : S) (now t : ℕ) (k : Text) (ttl : ℕ)
      → v.set_ex s now k ttl ≡ some s'
      → t < now + ttl
      → v.exists s' t k ≡ some true
  pub keeps :
      (s s' : S) (now t : ℕ) (k l : Text) (ttl : ℕ)
      → v.set_ex s now l ttl ≡ some s'
      → now ≤ t
      → v.exists s t k ≡ some true
      → v.exists s' t k ≡ some true

pub data JobError : Type 0 where
  dedup_failed : JobError
  duplicate_url : JobError
  scrape_failed : Text → JobError

pub record JobResult (F : Type 0) : Type 0 where
  pub article : Option (NewsArticle F)
  pub err : Option JobError
  pub url : Text

module _ {S : Type 0} (v : Valkey S) where
  -- The cache: its client, which may be nil, and the server's state.
  pub dedup_exists : Bool → S → ℕ → Text → Option Bool
  dedup_exists false s now url_hash = some false
  dedup_exists true s now url_hash = v.exists s now (dedup_key url_hash)

  stored_or : S → Option S → S
  stored_or s none = s
  stored_or s (some s') = s'

  -- Set, whose error the job only logs.
  pub dedup_set : Bool → S → ℕ → Text → S
  unfolding stored_or
  dedup_set false s now url_hash = s
  dedup_set true s now url_hash = stored_or s (v.set_ex s now (dedup_key url_hash) dedup_ttl)

  module _ {F : Type 0} (digest : Text → Text) (has_client : Bool) where
    pub refused : Text → JobError → S → JobResult F × S
    refused url e s = (record { article = none; err = some e; url = url }, s)

    pub build_article : ℕ → ℕ → FeedItem → Text → NewsArticle F
    build_article id now item content = record {
      id = id;
      url_hash = md5_hash digest item.url;
      title = item.title;
      url = item.url;
      source = item.source;
      summary = item.summary;
      content_raw = content;
      sentiment_score = none;
      sentiment_label = none;
      published_at = item.published_at;
      ingested_at = now;
      processed_at = none;
      created_at = now;
      updated_at = now;
      tags = [];
    }

    -- Steps 2 to 4; `scraped` is the article's content or the scraper's error.
    pub scrape_and_mark : ℕ → ℕ → FeedItem → Text ⊎ Text → S → JobResult F × S
    unfolding refused build_article
    scrape_and_mark id now item (inl e) s = refused item.url (scrape_failed e) s
    scrape_and_mark id now item (inr content) s = (
      record { article = some (build_article id now item content); err = none; url = item.url },
      dedup_set has_client s now (md5_hash digest item.url),
    )

    -- `id` is the new UUID, `now` the clock.
    pub process_job : ℕ → ℕ → (Text → Text ⊎ Text) → FeedItem → S → JobResult F × S
    unfolding refused scrape_and_mark
    process_job id now scrape item s =
        elim (dedup_exists has_client s now (md5_hash digest item.url)) [
          | none ↦ refused item.url dedup_failed s
          | some true ↦ refused item.url duplicate_url s
          | some false ↦ scrape_and_mark id now item (scrape item.url) s
        ]

-- At most 20 items of a feed are submitted.
pub submitted : List FeedItem → List FeedItem
submitted items = if ltb 20 (length items) then take 20 items else items

-- The loop over the results: the articles and the errors.
module _ {F : Type 0} where
  pub collect_results :
      List (JobResult F)
      → List (NewsArticle F)
      → List JobError
      → List (NewsArticle F) × List JobError
  collect_results [] articles errs = (articles, errs)
  collect_results (r ∷ rest) articles errs = elim r.err [
    | some e ↦ collect_results rest articles (errs ++ (e ∷ []))
    | none ↦ elim r.article [
      | some a ↦ collect_results rest (articles ++ (a ∷ [])) errs
      | none ↦ collect_results rest articles errs
    ]
  ]
