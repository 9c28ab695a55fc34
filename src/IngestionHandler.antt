-- ===== src/IngestionHandler.antt =====
-- delivery/http/handler/ingestion_handler.go: the lock `currentCancel` that keeps ingestion runs
-- apart, and the background run. A run is named by a number; its context is done once it is
-- cancelled.
pub mod Exclusion
pub mod Runs
pub mod Background
mod Examples
use quant_indonesia_scraping.Prelude.{
  ℕ, suc, ◌+◌, Bool, true, false, not, ◌&&◌, ◌||◌, Option, none, some, List, [], ◌∷◌, ◌++◌, map,
  Text, codes, contains, itoa, length, ◌==◌, if◌then◌else◌, is_nil, member,
}
use quant_indonesia_scraping.Domain.{NewsArticle}
use quant_indonesia_scraping.Broadcast.{IngestionEvent, event}

-- The HTTP status of a response, as the handlers give it.
pub data Response : Type 0 where
  accepted success bad_request conflict : Response

pub record FeedInput : Type 0 where
  pub name : Text
  pub url : Text

-- `Bind` either fails or gives the request's feeds.
abbrev pub TriggerRequest : Type 0
TriggerRequest = Option (List FeedInput)

-- `running` names the runs whose goroutine, or whose Reprocess call, has not ended.
pub record Server : Type 0 where
  pub current_cancel : Option ℕ
  pub running : List ℕ
  pub cancelled : List ℕ
  pub next : ℕ

pub idle : Server
idle = record { current_cancel = none; running = []; cancelled = []; next = 0 }

-- `h.mu.Lock(); if h.currentCancel != nil {...}; h.currentCancel = cancel; h.mu.Unlock()`
acquire : Response → Server → Response × Server
acquire status s =
    if is_nil s.current_cancel
    then (
      status,
      record s { current_cancel = some s.next; running = s.next ∷ s.running; next = s.next + 1 },
    )
    else (conflict, s)

pub trigger : TriggerRequest → Server → Response × Server
unfolding acquire
trigger none s = (bad_request, s)
trigger (some []) s = (bad_request, s)
trigger (some (f ∷ fs)) s = acquire accepted s

-- Reprocess up to its call of ReprocessUnanalyzed; the status is that of its end.
pub reprocess : Server → Response × Server
unfolding acquire
reprocess s = acquire success s

remove : ℕ → List ℕ → List ℕ
remove r [] = []
remove r (q ∷ qs) = let rest = remove r qs in if q == r then rest else q ∷ rest

-- The deferred `h.currentCancel = nil` when run `r` ends, in Trigger and in Reprocess alike.
pub finish : ℕ → Server → Server
unfolding remove
finish r s = record s { current_cancel = none; running = remove r s.running }

pub cancel : Server → Response × Server
cancel s = (
  success,
  elim s.current_cancel [
    | none ↦ s
    | some r ↦ record s { current_cancel = none; cancelled = r ∷ s.cancelled }
  ],
)

-- The errors of Ingest: `exists` is an error that is ErrAlreadyExists or says "already exists".
pub data IngestError : Type 0 where
  already_exists : IngestError
  other : Text → IngestError

-- `errors.Is(err, domain.ErrAlreadyExists) || strings.Contains(err.Error(), "already exists")`
pub is_duplicate : IngestError → Bool
is_duplicate already_exists = true
is_duplicate (other message) = contains message (codes "already exists")

pub message_of : IngestError → Text
message_of already_exists = codes "entity already exists"
message_of (other message) = message

-- What the run leaves: the events it broadcast, the articles it gave to Ingest, `processErrors`,
-- and whether it stopped because its context was done.
pub record RunLog (F : Type 0) : Type 0 where
  pub events : List (IngestionEvent F)
  pub ingested : List (NewsArticle F)
  pub errors : List Text
  pub stopped : Bool

-- The result of one Ingest: a duplicate is skipped, another error is kept.
note : Option IngestError → List Text → List Text
note none errors = errors
note (some err) errors = if is_duplicate err then errors else errors ++ (message_of err ∷ [])

module _ {F : Type 0} where
  pub start_event : ℕ → IngestionEvent F
  start_event feeds =
      event (codes "start") (codes "SCRAPING") 0 feeds
        (codes "Mulai Scraping RSS dari " ++ (itoa feeds ++ codes " sumber berita..."))

  pub progress_event : ℕ → ℕ → NewsArticle F → IngestionEvent F
  progress_event i total a = event (codes "progress") (codes "AI_ANALYSIS") (i + 1) total (
      codes "Analisis AI ["
      ++ (itoa (i + 1)
          ++ (codes "/" ++ (itoa total ++ (codes "]: \"" ++ (a.title ++ codes "\""))))))

  pub cancelled_event : IngestionEvent F
  cancelled_event =
      event (codes "cancelled") (codes "SCRAPING") 0 0
        (codes "🛑 Ingestion dihentikan oleh pengguna.")

  pub done_event : ℕ → IngestionEvent F
  done_event total = event (codes "done") (codes "SCRAPING") 0 total (
      codes "Proses Ingestion Selesai! "
      ++ (itoa total ++ codes " artikel baru berhasil diserap & dianalisis."))

  -- What Cancel broadcasts.
  pub cancel_events : Server → List (IngestionEvent F)
  cancel_events s = elim s.current_cancel [
    | none ↦ []
    | some r ↦
        event (codes "done") (codes "CANCEL") 0 0 (codes "🛑 Proses dihentikan oleh pengguna.") ∷ []
  ]

  abbrev pub emit : IngestionEvent F → RunLog F → RunLog F
  emit e l = record l { events = l.events ++ (e ∷ []) }

  -- One round of the loop: progress, and Ingest.
  ingest_one : (NewsArticle F → Option IngestError) → ℕ → ℕ → NewsArticle F → RunLog F → RunLog F
  unfolding note
  ingest_one ingest i total a l = record l {
    events = l.events ++ (progress_event i total a ∷ []);
    ingested = l.ingested ++ (a ∷ []);
    errors = note (ingest a) l.errors;
  }

  -- The loop over the articles; `done i` says whether procCtx is done before article i.
  ingest_all :
      (ℕ → Bool)
      → (NewsArticle F → Option IngestError)
      → ℕ
      → ℕ
      → List (NewsArticle F)
      → RunLog F
      → RunLog F
  ingest_all done ingest i total [] l = l
  ingest_all done ingest i total (a ∷ rest) l = elim (done i) [
    | true ↦ record l { events = l.events ++ (cancelled_event ∷ []); stopped = true }
    | false ↦ ingest_all done ingest (i + 1) total rest (ingest_one ingest i total a l)
  ]

  abbrev pub begun : ℕ → RunLog F
  begun feeds = record {
    events = start_event feeds ∷ [];
    ingested = [];
    errors = [];
    stopped = false;
  }

  -- What follows the loop, unless the run returned from it.
  close_run : ℕ → List Text → RunLog F → RunLog F
  close_run total errs l =
      if l.stopped
      then l
      else record l { events = l.events ++ (done_event total ∷ []); errors = l.errors ++ errs }

  -- The goroutine of Trigger, over the articles and the errors that `h.pipeline.Run` returned.
  pub background :
      (ℕ → Bool)
      → (NewsArticle F → Option IngestError)
      → ℕ
      → List (NewsArticle F)
      → List Text
      → RunLog F
  background done ingest feeds articles errs =
      close_run (length articles) errs
        (ingest_all done ingest 0 (length articles) articles (begun feeds))
