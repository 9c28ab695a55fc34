-- ===== src/Worker/Pool/Accounts.antt =====
-- The accounts of the pool: every item of the feeds is in one place.
use quant_indonesia_scraping.Prelude.{
  ℕ, zero, suc, ◌+◌, ◌≤◌, ◌≡◌, ◌⊎◌, refl, ap, sym, ◌∙◌, Bool, true, false, Option, none, some, List,
  [], ◌∷◌, ◌++◌, Text, arith, inl, inr,
}
use quant_indonesia_scraping.Worker.{
  FeedItem, md5_hash, Valkey, JobResult, dedup_exists, refused, scrape_and_mark,
}
use quant_indonesia_scraping.Worker.Pool.{
  Worker, waiting, checking, scraping, sending, stopped, Shared, WorkerPool, idle_workers,
  start_pool, after_check, Turn, takes, leaves, stops, checks, scrapes, sends, drops, Step, submits,
  closes, collects, works, Reach, start, next, cancels,
}

abbrev pub sum_of : {A : Type 0} → (A → ℕ) → List A → ℕ
sum_of f [] = 0
sum_of f (x ∷ xs) = f x + sum_of f xs

pub sum_of-append :
    {A : Type 0} (f : A → ℕ) (xs ys : List A) → sum_of f (xs ++ ys) ≡ sum_of f xs + sum_of f ys
sum_of-append f [] ys = omega arith
sum_of-append f (x ∷ xs) ys = omega (arith, sum_of-append f xs ys)

pub sum_of-replaced :
    {A : Type 0} (f : A → ℕ) (before after : List A) (w w' : A)
    → sum_of f (before ++ (w' ∷ after)) + f w ≡ sum_of f (before ++ (w ∷ after)) + f w'
sum_of-replaced f before after w w' =
    omega (arith, sum_of-append f before (w ∷ after), sum_of-append f before (w' ∷ after))

-- The weight of the URLs in a list: with the weight of one URL 1 and of the others 0, how often that
-- URL occurs.
abbrev pub items_weight : (Text → ℕ) → List FeedItem → ℕ
items_weight f = sum_of (λ (i : FeedItem). f i.url)

abbrev pub results_weight : {F : Type 0} → (Text → ℕ) → List (JobResult F) → ℕ
results_weight {F} f = sum_of (λ (r : JobResult F). f r.url)

abbrev pub worker_weight : {F : Type 0} → (Text → ℕ) → Worker F → ℕ
worker_weight f waiting = 0
worker_weight f (checking item) = f item.url
worker_weight f (scraping item) = f item.url
worker_weight f (sending r) = f r.url
worker_weight f stopped = 0

abbrev pub shared_weight : {S F : Type 0} → (Text → ℕ) → Shared S F → ℕ
shared_weight f p =
    items_weight f p.unsent
    + items_weight f p.jobs
    + results_weight f p.results
    + results_weight f p.collected

abbrev pub pool_weight : {S F : Type 0} → (Text → ℕ) → WorkerPool S F → ℕ
pool_weight f x = shared_weight f x.shared + sum_of (worker_weight f) x.workers

idle_workers-weight :
    (F : Type 0) (f : Text → ℕ) (n : ℕ) → sum_of (worker_weight f) (idle_workers {F = F} n) ≡ 0
unfolding idle_workers
idle_workers-weight F f zero = refl
idle_workers-weight F f (suc n) = omega (arith, idle_workers-weight F f n)

module _ {S : Type 0} (F : Type 0) (v : Valkey S) (digest : Text → Text) (has_client : Bool) where
  after_check-weight :
      (f : Text → ℕ) (item : FeedItem) (s : S) (o : Option Bool)
      → worker_weight {F = F} f (after_check v digest has_client item s o) ≡ f item.url
  unfolding after_check refused
  after_check-weight f item s none = refl
  after_check-weight f item s (some true) = refl
  after_check-weight f item s (some false) = refl

  scrape_and_mark-url :
      (id now : ℕ) (item : FeedItem) (o : Text ⊎ Text) (s : S)
      → (scrape_and_mark v {F = F} digest has_client id now item o s).0.url ≡ item.url
  unfolding scrape_and_mark refused
  scrape_and_mark-url id now item (inl e) s = refl
  scrape_and_mark-url id now item (inr t) s = refl

module _ {S F : Type 0} (v : Valkey S) (digest : Text → Text) (has_client : Bool)
    (scrape : Text → Text ⊎ Text) (num_workers : ℕ) where
  abbrev pub MyTurn : Shared S F → Worker F → Shared S F → Worker F → Type 0
  MyTurn p w q w' = Turn v digest has_client scrape num_workers p w q w'

  Turn-cancelled :
      {p q : Shared S F} {w w' : Worker F} → MyTurn p w q w' → q.cancelled ≡ p.cancelled
  Turn-cancelled (takes item rest e) = refl
  Turn-cancelled (leaves e h) = refl
  Turn-cancelled (stops h) = refl
  Turn-cancelled (checks now item) = refl
  Turn-cancelled (scrapes id now item) = refl
  Turn-cancelled (sends r h) = refl
  Turn-cancelled (drops r h) = refl

  Turn-weight :
      (f : Text → ℕ) {p q : Shared S F} {w w' : Worker F}
      → MyTurn p w q w'
      → (shared_weight f q + worker_weight f w' ≡ shared_weight f p + worker_weight f w)
        ⊎ ((p.cancelled ≡ true)
            × (shared_weight f q + worker_weight f w' ≤ shared_weight f p + worker_weight f w))
  Turn-weight f {p} (takes item rest e) = inl (omega (arith, ap (items_weight f) e))
  Turn-weight f (leaves e h) = inl (omega arith)
  Turn-weight f (stops h) = inl (omega arith)
  Turn-weight f {p} (checks now item) = inl (
      omega (
        arith,
        after_check-weight F v digest has_client f item p.cache
            (dedup_exists v has_client p.cache now (md5_hash digest item.url)),
      ))
  Turn-weight f {p} (scrapes id now item) = inl (
      omega (
        arith,
        ap f (scrape_and_mark-url F v digest has_client id now item (scrape item.url) p.cache),
      ))
  Turn-weight f {p} (sends r h) =
      inl (omega (arith, sum_of-append (λ (r : JobResult F). f r.url) p.results (r ∷ [])))
  Turn-weight f (drops r h) = inr (h, omega arith)

  abbrev pub MyStep : WorkerPool S F → WorkerPool S F → Type 0
  MyStep = Step v digest has_client scrape num_workers

  pub Step-cancelled : {x y : WorkerPool S F} → MyStep x y → y.shared.cancelled ≡ x.shared.cancelled
  Step-cancelled (submits item rest o e h) = refl
  Step-cancelled (closes o h) = refl
  Step-cancelled (collects r rest e) = refl
  Step-cancelled (works before after w w' p e t) = Turn-cancelled t

  Step-weight :
      (f : Text → ℕ) {x y : WorkerPool S F}
      → MyStep x y
      → (pool_weight f y ≡ pool_weight f x)
        ⊎ ((x.shared.cancelled ≡ true) × (pool_weight f y ≤ pool_weight f x))
  Step-weight f {x} (submits item rest o e h) = inl (
      omega (
        arith,
        ap (items_weight f) e,
        sum_of-append (λ (i : FeedItem). f i.url) x.shared.jobs (item ∷ []),
      ))
  Step-weight f (closes o h) = inl refl
  Step-weight f {x} (collects r rest e) = inl (
      omega (
        arith,
        ap (results_weight f) e,
        sum_of-append (λ (r : JobResult F). f r.url) x.shared.collected (r ∷ []),
      ))
  Step-weight f {x} (works before after w w' p e t) =
      let change = sum_of-replaced (worker_weight f) before after w w' in
      let now = ap (sum_of (worker_weight f)) e in
      elim (Turn-weight f t) [
        | inl same ↦ inl (omega (arith, same, change, now))
        | inr (c, less) ↦ inr (c, omega (arith, less, change, now))
      ]

  abbrev pub MyReach : List FeedItem → S → ℕ → WorkerPool S F → Type 0
  MyReach = Reach v digest has_client scrape num_workers

  -- However the workers, the submission and the collection interleave, each item of the feeds is in
  -- one place at any time, on its way or as a result: counted by URL with any weights, they never
  -- exceed the items given, so no result is made up and no item gives two results; unless the
  -- context was cancelled, none is lost either.
  pub Reach-accounts :
      (f : Text → ℕ) {items : List FeedItem} {s : S} {k : ℕ} {x : WorkerPool S F}
      → MyReach items s k x
      → (pool_weight f x ≤ items_weight f items)
        × (x.shared.cancelled ≡ false → pool_weight f x ≡ items_weight f items)
  unfolding start_pool
  Reach-accounts f start = (
    omega (arith, idle_workers-weight F f num_workers),
    λ c. omega (arith, idle_workers-weight F f num_workers),
  )
  Reach-accounts f (next r t) =
      let (le, eq) = Reach-accounts f r in
      elim (Step-weight f t) [
        | inl same ↦
            (omega (arith, same, le), λ c. omega (arith, same, eq (sym (Step-cancelled t) ∙ c)))
        | inr (c', less) ↦ (omega (arith, less, le), λ c. cc (Step-cancelled t))
      ]
  Reach-accounts f (cancels r) = ((Reach-accounts f r).0, λ c. cc)
