-- ===== src/IngestionHandler/Examples.antt =====
-- Requests to the ingestion handler.
use quant_indonesia_scraping.Prelude.{
  decimal_digits, ℕ, ◌≡◌, ◌≢◌, ◌++◌, refl, Bool, true, Option, none, some, List, [], ◌∷◌, Text,
  codes, member, take, if◌then◌else◌, ◌==◌,
}
use quant_indonesia_scraping.Float.Decimal.{Decimal}
use quant_indonesia_scraping.Domain.{NewsArticle}
use quant_indonesia_scraping.Broadcast.{event}
use quant_indonesia_scraping.IngestionHandler.{
  accepted, conflict, FeedInput, Server, idle, acquire, trigger, reprocess, finish, cancel,
  IngestError, already_exists, other, is_duplicate, message_of, note, ingest_one, ingest_all,
  close_run, background, cancelled_event, start_event, cancel_events, progress_event, done_event,
}
use quant_indonesia_scraping.IngestionHandler.Exclusion.{Calm, IsExclusive, Calm-IsExclusive}
use quant_indonesia_scraping.IngestionHandler.Runs.{
  Reach, IsSound, Reach-IsSound, cancel_loses_lock, restarted,
}
use quant_indonesia_scraping.IngestionHandler.Background.{
  failures, progress_from, rounds, stops, background_lem,
}

abbrev feed : FeedInput
feed = record { name = codes "CNBC"; url = codes "https://example.com/rss" }

abbrev busy : Server
busy = (trigger (some (feed ∷ [])) idle).1

busy-Calm : Calm busy
busy-Calm = Calm.triggers (some (feed ∷ [])) Calm.start

busy-Reach : Reach busy
busy-Reach = Reach.triggers (some (feed ∷ [])) Reach.start

busy_locked : busy.current_cancel ≡ some 0
unfolding trigger idle acquire
busy_locked = refl

Calm-IsExclusive_example : IsExclusive busy
Calm-IsExclusive_example = Calm-IsExclusive busy-Calm

Reach-IsSound_example : IsSound (cancel busy).1
Reach-IsSound_example = Reach-IsSound (Reach.cancels busy-Reach)

cancel_loses_lock_example :
    let t = restarted feed [] busy in
    ((trigger (some (feed ∷ [])) (cancel busy).1).0 ≡ accepted)
    × (member 0 t.running ≡ true)
    × (member busy.next t.running ≡ true)
    × (0 ≢ busy.next)
    × ((finish 0 t).current_cancel ≡ none)
    × (member busy.next (finish 0 t).running ≡ true)
    × ((cancel (finish 0 t)).1 ≡ finish 0 t)
cancel_loses_lock_example = cancel_loses_lock 0 feed [] busy-Reach busy_locked

reprocess_refused : (reprocess busy).0 ≡ conflict
unfolding reprocess trigger idle acquire
reprocess_refused = refl

abbrev article : Text → NewsArticle Decimal
article title = record {
  id = 0;
  url_hash = [];
  title = title;
  url = codes "https://example.com/a";
  source = codes "CNBC";
  summary = [];
  content_raw = [];
  sentiment_score = none;
  sentiment_label = none;
  published_at = none;
  ingested_at = 0;
  processed_at = none;
  created_at = 0;
  updated_at = 0;
  tags = [];
}

abbrev articles : List (NewsArticle Decimal)
articles = article (codes "A") ∷ article (codes "B") ∷ article (codes "C") ∷ []

-- The run is cancelled before the third article; the second article fails.
abbrev third : ℕ → Bool
third i = i == 2

abbrev second_fails : NewsArticle Decimal → Option IngestError
second_fails a = elim a.title [
  | [] ↦ none
  | c ∷ cs ↦ if c == b'B' then some (other (codes "db")) else some already_exists
]

background_lem_example :
    let n : ℕ = 3 in
    let handled = take (rounds third 0 n) articles in
    let log = background third second_fails 2 articles (codes "feed" ∷ []) in
    (log.ingested ≡ handled)
    × (log.stopped ≡ stops third 0 n)
    × (log.events
        ≡ start_event 2 ∷ progress_from 0 n handled
          ++ ((if stops third 0 n then cancelled_event else done_event n) ∷ []))
    × (log.errors
        ≡ failures second_fails handled ++ (if stops third 0 n then [] else codes "feed" ∷ []))
background_lem_example = background_lem third second_fails 2 articles (codes "feed" ∷ [])

second_reported :
    (background third second_fails 2 articles (codes "feed" ∷ [])).errors ≡ codes "db" ∷ []
unfolding background ingest_all ingest_one note close_run is_duplicate message_of
second_reported = refl

begins :
    (start_event {F = Decimal} 12).message ≡ codes "Mulai Scraping RSS dari 12 sumber berita..."
unfolding start_event decimal_digits
begins = refl

goes_on : (progress_event 2 12 (article (codes "A"))).message ≡ codes "Analisis AI [3/12]: \"A\""
unfolding progress_event decimal_digits
goes_on = refl

ends :
    (done_event {F = Decimal} 12).message
    ≡ codes "Proses Ingestion Selesai! 12 artikel baru berhasil diserap & dianalisis."
unfolding done_event decimal_digits
ends = refl

cancel_tells :
    cancel_events {F = Decimal} busy
    ≡ event (codes "done") (codes "CANCEL") 0 0 (codes "🛑 Proses dihentikan oleh pengguna.") ∷ []
unfolding cancel_events trigger idle acquire
cancel_tells = refl

stops_with : (cancelled_event {F = Decimal}).kind ≡ codes "cancelled"
unfolding cancelled_event
stops_with = refl
