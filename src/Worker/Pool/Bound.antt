-- ===== src/Worker/Pool/Bound.antt =====
-- The steps of the pool are bounded.
use quant_indonesia_scraping.Prelude.{
  ℕ, zero, suc, ◌+◌, ◌*◌, ◌≤◌, ◌<◌, ◌≡◌, ◌⊎◌, refl, ap, Bool, true, false, Option, none, some, List,
  [], ◌∷◌, Text, length, length-append, length-take, arith,
}
use quant_indonesia_scraping.Worker.{FeedItem, md5_hash, Valkey, dedup_exists, submitted}
use quant_indonesia_scraping.Worker.Pool.{
  submitted_items, Worker, waiting, checking, scraping, sending, stopped, Shared, WorkerPool,
  idle_workers, start_pool, after_check, Turn, takes, leaves, stops, checks, scrapes, sends, drops,
  Step, submits, closes, collects, works, Reach, start, next, cancels,
}
use quant_indonesia_scraping.Worker.Pool.Accounts.{sum_of, sum_of-replaced}

-- The steps that a worker may still make, each with what comes of it.
abbrev pub worker_work : {F : Type 0} → Worker F → ℕ
worker_work waiting = 1
worker_work (checking item) = 5
worker_work (scraping item) = 4
worker_work (sending r) = 3
worker_work stopped = 0

abbrev pub open_work : Bool → ℕ
open_work true = 0
open_work false = 1

abbrev pub shared_work : {S F : Type 0} → Shared S F → ℕ
shared_work p = 6 * length p.unsent + 5 * length p.jobs + length p.results + open_work p.closed

abbrev pub pool_work : {S F : Type 0} → WorkerPool S F → ℕ
pool_work x = shared_work x.shared + sum_of worker_work x.workers

submitted-length : (items : List FeedItem) → length (submitted items) ≤ 20
unfolding submitted
submitted-length items = ground (arith, length-take 20 items)

submitted_items-length :
    (feeds : List (Option (List FeedItem))) → length (submitted_items feeds) ≤ 20 * length feeds
unfolding submitted_items
submitted_items-length [] = omega arith
submitted_items-length (none ∷ feeds) = omega (arith, submitted_items-length feeds)
submitted_items-length (some items ∷ feeds) = omega (
  arith,
  submitted_items-length feeds,
  length-append (submitted items) (submitted_items feeds),
  submitted-length items,
)

idle_workers-work : (F : Type 0) (n : ℕ) → sum_of worker_work (idle_workers {F = F} n) ≡ n
unfolding idle_workers
idle_workers-work F zero = refl
idle_workers-work F (suc n) = omega (arith, idle_workers-work F n)

module _ {S : Type 0} (F : Type 0) (v : Valkey S) (digest : Text → Text) (has_client : Bool) where
  after_check-work :
      (item : FeedItem) (s : S) (o : Option Bool)
      → worker_work {F = F} (after_check v digest has_client item s o) ≤ 4
  unfolding after_check
  after_check-work item s none = omega arith
  after_check-work item s (some true) = omega arith
  after_check-work item s (some false) = omega arith

module _ {S F : Type 0} (v : Valkey S) (digest : Text → Text) (has_client : Bool)
    (scrape : Text → Text ⊎ Text) (num_workers : ℕ) where
  Turn-work :
      {p q : Shared S F} {w w' : Worker F}
      → Turn v digest has_client scrape num_workers p w q w'
      → shared_work q + worker_work w' < shared_work p + worker_work w
  Turn-work {p} (takes item rest e) = omega (arith, ap length e)
  Turn-work (leaves e h) = omega arith
  Turn-work (stops h) = omega arith
  Turn-work {p} (checks now item) = omega (
    arith,
    after_check-work F v digest has_client item p.cache
        (dedup_exists v has_client p.cache now (md5_hash digest item.url)),
  )
  Turn-work (scrapes id now item) = omega arith
  Turn-work {p} (sends r h) = omega (arith, length-append p.results (r ∷ []))
  Turn-work (drops r h) = omega arith

  Step-work :
      {x y : WorkerPool S F}
      → Step v digest has_client scrape num_workers x y
      → pool_work y < pool_work x
  Step-work {x} (submits item rest o e h) =
      omega (arith, ap length e, length-append x.shared.jobs (item ∷ []))
  Step-work {x} (closes o h) = omega (arith, ap open_work o)
  Step-work {x} (collects r rest e) = omega (arith, ap length e)
  Step-work {x} (works before after w w' p e t) =
      omega (
        arith,
        Turn-work t,
        ap (sum_of worker_work) e,
        sum_of-replaced worker_work before after w w',
      )

  Reach-work :
      {items : List FeedItem} {s : S} {k : ℕ} {x : WorkerPool S F}
      → Reach v digest has_client scrape num_workers items s k x
      → k + pool_work x ≤ 6 * length items + num_workers + 1
  unfolding start_pool
  Reach-work start = omega (arith, idle_workers-work F num_workers)
  Reach-work (next r t) = omega (arith, Reach-work r, Step-work t)
  Reach-work (cancels r) = omega (arith, Reach-work r)

  -- However the goroutines interleave and whether the run is cancelled or not, it ends: it makes at
  -- most 120 steps for each feed, one for each worker and one to close the jobs, less the steps
  -- that are still to be made.
  pub Reach-bounded :
      (feeds : List (Option (List FeedItem))) {s : S} {k : ℕ} {x : WorkerPool S F}
      → Reach v digest has_client scrape num_workers (submitted_items feeds) s k x
      → k + pool_work x ≤ 120 * length feeds + num_workers + 1
  Reach-bounded feeds r = omega (arith, Reach-work r, submitted_items-length feeds)
