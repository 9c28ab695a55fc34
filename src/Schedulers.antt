-- ===== src/Schedulers.antt =====
-- ingestion/scheduler.go, ingestion/price_scheduler.go and ingestion/feed.go: the jobs that cron runs,
-- and the feeds they read.
pub mod Prices
pub mod Feeds
mod Examples
use quant_indonesia_scraping.Prelude.{
  ℕ, ◌+◌, Bool, true, false, ◌||◌, Option, none, some, List, [], ◌∷◌, ◌++◌, Text, codes, is_empty,
  itoa, length, ltb, leb, Result, ok, err, if◌then◌else◌,
}
use quant_indonesia_scraping.Float.{Float64}
use quant_indonesia_scraping.Domain.{StockPrice}
use quant_indonesia_scraping.Broadcast.{IngestionEvent, event}
use quant_indonesia_scraping.HttpClient.{GetResult, got}
use quant_indonesia_scraping.Worker.{FeedItem}
use quant_indonesia_scraping.YahooFinance.{Request, Reply, Session, FetchError}
use quant_indonesia_scraping.YahooFinance.Quotes.{YahooResponse, fetch_prices}
use quant_indonesia_scraping.ImportHandler.{Progress, failed_one, saved_one}

-- PriceScheduler.ScheduleJob.
module _ {F S : Type 0} (upsert_batch : List (StockPrice F) → S → Option Text × S) where
  -- One symbol, with what was fetched for it. No prices are neither a success nor an error.
  pub update_with : Result FetchError (List (StockPrice F)) → Progress S → Progress S
  update_with (err e) p = failed_one p
  update_with (ok []) p = p
  update_with (ok (q ∷ qs)) p = saved_one (upsert_batch (q ∷ qs) p.store) p

  module _ ⦃d : Float64 F⦄ (decode : Text → Option (YahooResponse F))
      (net : List Request → Request → Reply) where
    pub update_one : Text → Progress S → Progress S
    unfolding update_with
    update_one symbol p =
        let (result, y) = fetch_prices decode net symbol (codes "1mo") p.session in
        update_with result (record p { session = y })

    pub update_loop : List Text → Progress S → Progress S
    unfolding update_one
    update_loop [] p = p
    update_loop (symbol ∷ rest) p = update_loop rest (update_one symbol p)

    -- Over what ListAllSymbols gives; nothing is done without stocks.
    pub price_job : Result Text (List Text) → Session → S → Progress S
    unfolding update_loop
    price_job (err e) y s = record { session = y; store = s; success_count = 0; error_count = 0 }
    price_job (ok []) y s = record { session = y; store = s; success_count = 0; error_count = 0 }
    price_job (ok (t ∷ ts)) y s =
        update_loop (codes "^JKSE" ∷ t ∷ ts)
          (record { session = y; store = s; success_count = 0; error_count = 0 })

pub record FeedSource : Type 0 where
  pub name : Text
  pub url : Text

abbrev source : Text → Text → FeedSource
source name url = record { name = name; url = url }

pub default_feed_sources : List FeedSource
default_feed_sources =
    source (codes "CNBC Indonesia Market") (codes "https://www.cnbcindonesia.com/market/rss")
    ∷ source (codes "CNBC Indonesia News") (codes "https://www.cnbcindonesia.com/news/rss")
    ∷ source (codes "Detik Finance") (codes "https://finance.detik.com/rss")
    ∷ source (codes "IDX Channel") (codes "https://www.idxchannel.com/rss")
    ∷ source (codes "Bisnis.com Market") (codes "https://market.bisnis.com/rss")
    ∷ source (codes "Investor Daily") (codes "https://investor.id/rss")
    ∷ []

-- NewScheduler
pub scheduler_sources : List FeedSource → List FeedSource
unfolding default_feed_sources
scheduler_sources [] = default_feed_sources
scheduler_sources (s ∷ ss) = s ∷ ss

-- Scheduler.ScheduleJob: every article is given to Ingest, whose errors are only logged; the message
-- of the event at the end.
pub ingest_articles : {A S : Type 0} → (A → S → Option Text × S) → List A → S → S
ingest_articles ingest [] s = s
ingest_articles ingest (a ∷ rest) s = let (e, s') = ingest a s in ingest_articles ingest rest s'

pub cron_event : {F : Type 0} → ℕ → IngestionEvent F
cron_event n =
    event (codes "done") (codes "SCRAPING") 0 n
      (codes "Cron Otomatis Selesai: " ++ itoa n ++ codes " berita diserap.")

pub scheduled_job : {F A S : Type 0} → (A → S → Option Text × S) → List A → S → IngestionEvent F × S
unfolding ingest_articles cron_event
scheduled_job ingest articles s = (cron_event (length articles), ingest_articles ingest articles s)

-- An item as gofeed parses it.
pub record RssItem : Type 0 where
  pub title : Text
  pub link : Text
  pub description : Text
  pub published_parsed : Option ℕ
  pub updated_parsed : Option ℕ

pub data FeedError : Type 0 where
  fetching_feed : Text → FeedError
  feed_status : Text → ℕ → FeedError
  parsing_feed : Text → FeedError

pub published_of : RssItem → Option ℕ
published_of i = elim i.published_parsed [ some t ↦ some t | none ↦ i.updated_parsed ]

pub feed_items : Text → List RssItem → List FeedItem
unfolding published_of
feed_items name [] = []
feed_items name (i ∷ is) =
    let rest = feed_items name is in
    if is_empty i.link
    then rest
    else record {
      title = i.title;
      url = i.link;
      source = name;
      summary = i.description;
      published_at = published_of i;
    }
      ∷ rest

-- `parse` is the parser of gofeed.
module _ (parse : Text → Option (List RssItem)) where
  pub parse_body : Text → Text → Result FeedError (List FeedItem)
  unfolding feed_items
  parse_body name body = elim (parse body) [
    | none ↦ err (parsing_feed name)
    | some is ↦ ok (feed_items name is)
  ]

  -- Over what the HTTP client's Get gives for the source's URL.
  pub parse_feed : Text → GetResult → Result FeedError (List FeedItem)
  unfolding parse_body
  parse_feed name (got body status) =
      if ltb status 200 || leb 300 status
      then err (feed_status name status)
      else parse_body name body
  parse_feed name _ = err (fetching_feed name)
