-- ===== src/Schedulers/Examples.antt =====
-- Jobs of cron over two stocks, and a feed with an item that has no link.
use quant_indonesia_scraping.Prelude.{
  ℕ, ◌+◌, ◌≤◌, ◌<◌, ◌≡◌, refl, Option, none, some, List, [], ◌∷◌, Text, codes, length, All, ok, err,
}
use quant_indonesia_scraping.Float.Decimal.{Decimal, decimal}
use quant_indonesia_scraping.Domain.{StockPrice}
use quant_indonesia_scraping.HttpClient.{got}
use quant_indonesia_scraping.Worker.{FeedItem}
use quant_indonesia_scraping.YahooFinance.{Request, Reply, answered, Session, new_fetcher}
use quant_indonesia_scraping.YahooFinance.Quotes.{YahooResponse}
use quant_indonesia_scraping.ImportHandler.{refresh_background}
use quant_indonesia_scraping.Schedulers.{
  price_job, scheduler_sources, default_feed_sources, scheduled_job, ingest_articles, RssItem,
  feed_status, feed_items, published_of, parse_body, parse_feed,
}
use quant_indonesia_scraping.Schedulers.Prices.{IsMilder, price_job-IsMilder}
use quant_indonesia_scraping.Schedulers.Feeds.{IsItem, parse_feed-IsItem}

abbrev upsert : List (StockPrice Decimal) → ℕ → Option Text × ℕ
upsert ps n = (none, n + length ps)

abbrev net : List Request → Request → Reply
net rs r = answered 200 (some [])

abbrev decode : Text → Option (YahooResponse Decimal)
decode t = some (record { result = record { timestamp = []; quote = [] } ∷ []; error = none })

abbrev session : Session
session = record { fetcher = new_fetcher; requests = [] }

price_job-IsMilder_example :
    let symbols = codes "BBCA" ∷ codes "TLKM" ∷ [] in
    let job = price_job upsert decode net (ok symbols) session 3 in
    (symbols ≡ [] → (job.session ≡ session) × (job.store ≡ 3))
    × ((t : Text) (ts : List Text)
        → symbols ≡ t ∷ ts
        → IsMilder job (refresh_background upsert decode net symbols session 3))
price_job-IsMilder_example =
    price_job-IsMilder upsert decode net (codes "BBCA" ∷ codes "TLKM" ∷ []) session 3

abbrev item : Text → RssItem
item link = record {
  title = codes "IHSG naik";
  link = link;
  description = [];
  published_parsed = none;
  updated_parsed = some 5;
}

abbrev parse : Text → Option (List RssItem)
parse t = some (item [] ∷ item (codes "https://a") ∷ [])

abbrev read : FeedItem
read = record {
  title = codes "IHSG naik";
  url = codes "https://a";
  source = codes "Detik";
  summary = [];
  published_at = some 5;
}

one_item : parse_feed parse (codes "Detik") (got [] 200) ≡ ok (read ∷ [])
unfolding parse_feed parse_body feed_items published_of
one_item = refl

not_ok : parse_feed parse (codes "Detik") (got [] 304) ≡ err (feed_status (codes "Detik") 304)
unfolding parse_feed
not_ok = refl

parse_feed-IsItem_example :
    (body : Text) × (status : ℕ) × (is : List RssItem) × (got [] 200 ≡ got body status)
    × (200 ≤ status)
    × (status < 300)
    × (parse body ≡ some is)
    × All (IsItem (codes "Detik")) (read ∷ [])
    × (1 ≤ length is)
parse_feed-IsItem_example =
    parse_feed-IsItem parse (codes "Detik") (got [] 200) (read ∷ []) one_item

six_sources : length (scheduler_sources []) ≡ 6
unfolding scheduler_sources default_feed_sources
six_sources = refl

-- An article that cannot be ingested does not keep the others back.
all_ingested :
    (scheduled_job {F = Decimal} (λ (a : ℕ) (s : ℕ). (some [], s + a)) (2 ∷ 3 ∷ []) 1).1 ≡ 6
unfolding scheduled_job ingest_articles
all_ingested = refl
