-- ===== src/Worker/Pool.antt =====
-- ingestion/worker.go and ingestion/pipeline.go: the pool of workers, the
-- submission and the collection as steps that interleave; one step is one operation on a channel,
-- one command of the cache, or one scrape with the cache's mark.
pub mod Accounts
pub mod Bound
pub mod Orderly
pub mod Ends
mod Examples
use quant_indonesia_scraping.Prelude.{
  ℕ, zero, suc, ◌*◌, ◌<◌, ◌≡◌, ◌⊎◌, Bool, true, false, Option, none, some, List, [], ◌∷◌, ◌++◌,
  Text, length,
}
use quant_indonesia_scraping.Worker.{
  FeedItem, md5_hash, Valkey, dedup_failed, duplicate_url, JobResult, dedup_exists, refused,
  scrape_and_mark, submitted,
}

-- The items that Run submits of the feeds it is given; `none` is a feed that fails to parse.
unfoldable pub submitted_items : List (Option (List FeedItem)) → List FeedItem
submitted_items [] = []
submitted_items (none ∷ feeds) = submitted_items feeds
submitted_items (some items ∷ feeds) = submitted items ++ submitted_items feeds

-- A worker: at its select, in the three parts of processJob, or returned.
pub data Worker (F : Type 0) : Type 0 where
  waiting : Worker F
  checking : FeedItem → Worker F
  scraping : FeedItem → Worker F
  sending : JobResult F → Worker F
  stopped : Worker F

-- What the goroutines share: the items that the feeds still give, the channel of jobs and whether
-- it is closed, the context, the channel of results, those collected, and the cache.
pub record Shared (S F : Type 0) : Type 0 where
  pub unsent : List FeedItem
  pub closed : Bool
  pub cancelled : Bool
  pub jobs : List FeedItem
  pub results : List (JobResult F)
  pub collected : List (JobResult F)
  pub cache : S

pub record WorkerPool (S F : Type 0) : Type 0 where
  pub shared : Shared S F
  pub workers : List (Worker F)

unfoldable pub idle_workers : {F : Type 0} → ℕ → List (Worker F)
idle_workers zero = []
idle_workers (suc n) = waiting ∷ idle_workers n

-- NewWorkerPool and Start.
unfoldable pub start_pool : {S F : Type 0} → ℕ → List FeedItem → S → WorkerPool S F
start_pool num_workers items s = record {
  shared = record {
    unsent = items;
    closed = false;
    cancelled = false;
    jobs = [];
    results = [];
    collected = [];
    cache = s;
  };
  workers = idle_workers num_workers;
}

-- The capacity of both channels.
abbrev pub capacity : ℕ → ℕ
capacity num_workers = num_workers * 2

module _ {S F : Type 0} (v : Valkey S) (digest : Text → Text) (has_client : Bool) where
  -- Step 1 of processJob.
  unfoldable pub after_check : FeedItem → S → Option Bool → Worker F
  after_check item s none = sending (refused v digest has_client item.url dedup_failed s).0
  after_check item s (some true) = sending (refused v digest has_client item.url duplicate_url s).0
  after_check item s (some false) = scraping item

module _ {S F : Type 0} (v : Valkey S) (digest : Text → Text) (has_client : Bool)
    (scrape : Text → Text ⊎ Text) (num_workers : ℕ) where
  -- What a worker does next, with what it shares.
  pub data Turn (p : Shared S F) : Worker F → Shared S F → Worker F → Type 0 where
    takes :
        (item : FeedItem) (rest : List FeedItem)
        → p.jobs ≡ item ∷ rest
        → Turn p waiting (record p { jobs = rest }) (checking item)
    leaves : p.jobs ≡ [] → p.closed ≡ true → Turn p waiting p stopped
    stops : p.cancelled ≡ true → Turn p waiting p stopped
    checks :
        (now : ℕ) (item : FeedItem)
        → Turn p (checking item) p (
            after_check v digest has_client item p.cache
              (dedup_exists v has_client p.cache now (md5_hash digest item.url)))
    scrapes :
        (id now : ℕ) (item : FeedItem)
        → Turn p
            (scraping item)
            (record p {
              cache =
                  (scrape_and_mark v {F = F} digest has_client id now item
                    (scrape item.url)
                    p.cache).1;
            })
            (sending (scrape_and_mark v digest has_client id now item (scrape item.url) p.cache).0)
    sends :
        (r : JobResult F)
        → length p.results < capacity num_workers
        → Turn p (sending r) (record p { results = p.results ++ (r ∷ []) }) waiting
    drops : (r : JobResult F) → p.cancelled ≡ true → Turn p (sending r) p stopped

  pub data Step (x : WorkerPool S F) : WorkerPool S F → Type 0 where
    submits :
        (item : FeedItem) (rest : List FeedItem)
        → x.shared.closed ≡ false
        → x.shared.unsent ≡ item ∷ rest
        → length x.shared.jobs < capacity num_workers
        → Step x (record x {
          shared = record x.shared { unsent = rest; jobs = x.shared.jobs ++ (item ∷ []) };
        })
    closes :
        x.shared.closed ≡ false
        → (x.shared.unsent ≡ []) ⊎ (x.shared.cancelled ≡ true)
        → Step x (record x { shared = record x.shared { closed = true } })
    collects :
        (r : JobResult F) (rest : List (JobResult F))
        → x.shared.results ≡ r ∷ rest
        → Step x (record x {
          shared = record x.shared { results = rest; collected = x.shared.collected ++ (r ∷ []) };
        })
    works :
        (before after : List (Worker F)) (w w' : Worker F) (p : Shared S F)
        → x.workers ≡ before ++ (w ∷ after)
        → Turn x.shared w p w'
        → Step x (record { shared = p; workers = before ++ (w' ∷ after) })

  -- The pool after a number of steps; the context is cancelled at any time.
  pub data Reach (items : List FeedItem) (s : S) : ℕ → WorkerPool S F → Type 0 where
    start : Reach items s 0 (start_pool num_workers items s)
    next : {k : ℕ} {x y : WorkerPool S F} → Reach items s k x → Step x y → Reach items s (suc k) y
    cancels :
        {k : ℕ} {x : WorkerPool S F}
        → Reach items s k x
        → Reach items s k (record x { shared = record x.shared { cancelled = true } })
