-- ===== src/Worker/Pool/Orderly.antt =====
-- The order in which the pool shuts down where its context is not cancelled.
use quant_indonesia_scraping.Prelude.{
  ℕ, zero, suc, ◌≡◌, ◌⊎◌, refl, ap, sym, ◌∙◌, Bool, true, false, Option, none, some, List, [], ◌∷◌,
  ◌++◌, Text, length, length-append, any, arith, inl, inr,
}
use quant_indonesia_scraping.Worker.{FeedItem, md5_hash, Valkey, dedup_exists}
use quant_indonesia_scraping.Worker.Pool.{
  Worker, waiting, checking, scraping, sending, stopped, Shared, WorkerPool, idle_workers,
  start_pool, after_check, takes, leaves, stops, checks, scrapes, sends, drops, submits, closes,
  collects, works, start, next, cancels,
}
use quant_indonesia_scraping.Worker.Pool.Accounts.{MyTurn, MyStep, MyReach, Step-cancelled}

abbrev pub is_stopped : {F : Type 0} → Worker F → Bool
is_stopped waiting = false
is_stopped (checking item) = false
is_stopped (scraping item) = false
is_stopped (sending r) = false
is_stopped stopped = true

-- While the context is not cancelled, the jobs are closed after all items were sent, and a worker
-- returns after all jobs were taken.
pub record IsOrderly {S F : Type 0} (num_workers : ℕ) (x : WorkerPool S F) : Type 0 where
  pub size : length x.workers ≡ num_workers
  pub sent : x.shared.closed ≡ true → x.shared.unsent ≡ []
  pub ended : any is_stopped x.workers ≡ true → (x.shared.closed ≡ true) × (x.shared.jobs ≡ [])

any-replaced :
    {A : Type 0} (p : A → Bool) (before after : List A) (w w' : A)
    → any p (before ++ (w' ∷ after)) ≡ true
    → (p w' ≡ true) ⊎ (any p (before ++ (w ∷ after)) ≡ true)
any-replaced p [] after w w' h = ground (arith, h)
any-replaced p (x ∷ before) after w w' h = ground (arith, h, any-replaced p before after w w')

idle_workers-length : (F : Type 0) (n : ℕ) → length (idle_workers {F = F} n) ≡ n
unfolding idle_workers
idle_workers-length F zero = refl
idle_workers-length F (suc n) = omega (arith, idle_workers-length F n)

idle_workers-stopped : (F : Type 0) (n : ℕ) → any is_stopped (idle_workers {F = F} n) ≡ false
unfolding idle_workers
idle_workers-stopped F zero = refl
idle_workers-stopped F (suc n) = idle_workers-stopped F n

after_check_goes :
    {S : Type 0} (F : Type 0) (v : Valkey S) (digest : Text → Text) (has_client : Bool)
    (item : FeedItem) (s : S) (o : Option Bool)
    → is_stopped {F = F} (after_check v digest has_client item s o) ≡ false
unfolding after_check
after_check_goes F v digest has_client item s none = refl
after_check_goes F v digest has_client item s (some true) = refl
after_check_goes F v digest has_client item s (some false) = refl

module _ {S F : Type 0} (v : Valkey S) (digest : Text → Text) (has_client : Bool)
    (scrape : Text → Text ⊎ Text) (num_workers : ℕ) where
  abbrev pub TurnOf : Shared S F → Worker F → Shared S F → Worker F → Type 0
  TurnOf p w q w' = MyTurn v digest has_client scrape num_workers p w q w'

  Turn-shared :
      {p q : Shared S F} {w w' : Worker F}
      → TurnOf p w q w'
      → (q.closed ≡ p.closed) × (q.unsent ≡ p.unsent) × (p.jobs ≡ [] → q.jobs ≡ [])
  Turn-shared {p} (takes item rest e) = (refl, refl, λ h. cc)
  Turn-shared (leaves e h) = (refl, refl, λ j. j)
  Turn-shared (stops h) = (refl, refl, λ j. j)
  Turn-shared (checks now item) = (refl, refl, λ j. j)
  Turn-shared (scrapes id now item) = (refl, refl, λ j. j)
  Turn-shared (sends r h) = (refl, refl, λ j. j)
  Turn-shared (drops r h) = (refl, refl, λ j. j)

  Turn-ended :
      {p q : Shared S F} {w w' : Worker F}
      → TurnOf p w q w'
      → p.cancelled ≡ false
      → is_stopped w' ≡ true
      → (q.closed ≡ true) × (q.jobs ≡ [])
  Turn-ended (takes item rest e) c h = cc
  Turn-ended (leaves e h) c i = (h, e)
  Turn-ended (stops h) c i = cc
  Turn-ended {p} (checks now item) c h = cc (
      after_check_goes F v digest has_client item p.cache
        (dedup_exists v has_client p.cache now (md5_hash digest item.url)))
  Turn-ended (scrapes id now item) c h = cc
  Turn-ended (sends r h) c i = cc
  Turn-ended (drops r h) c i = cc

  works-IsOrderly :
      {x : WorkerPool S F} (before after : List (Worker F)) (w w' : Worker F) (p : Shared S F)
      → x.workers ≡ before ++ (w ∷ after)
      → TurnOf x.shared w p w'
      → x.shared.cancelled ≡ false
      → IsOrderly num_workers x
      → IsOrderly num_workers (record { shared = p; workers = before ++ (w' ∷ after) })
  works-IsOrderly {x} before after w w' p e t c h =
      let (same, left, empty) = Turn-shared t in
      record {
        size = omega (
          arith,
          h.size,
          ap length e,
          length-append before (w ∷ after),
          length-append before (w' ∷ after),
        );
        sent = λ shut. left ∙ h.sent (sym same ∙ shut);
        ended = λ some_end. elim (any-replaced is_stopped before after w w' some_end) [
          | inl this ↦ Turn-ended t c this
          | inr old ↦
              let (shut, taken) = h.ended (ap (any is_stopped) e ∙ old) in
              (same ∙ shut, empty taken)
        ];
      }

  Step-IsOrderly :
      {x y : WorkerPool S F}
      → MyStep v digest has_client scrape num_workers x y
      → x.shared.cancelled ≡ false
      → IsOrderly num_workers x
      → IsOrderly num_workers y
  Step-IsOrderly (submits item rest o e k) c h = record {
    size = h.size;
    sent = λ shut. cc;
    ended = λ some_end. cc (h.ended some_end).0;
  }
  Step-IsOrderly {x} (closes o k) c h = record {
    size = h.size;
    sent = λ shut. elim k [ inl e ↦ e | inr d ↦ cc ];
    ended = λ some_end. (refl, (h.ended some_end).1);
  }
  Step-IsOrderly (collects r rest e) c h = record { size = h.size; sent = h.sent; ended = h.ended }
  Step-IsOrderly {x} (works before after w w' p e t) c h =
      works-IsOrderly before after w w' p e t c h

  pub Reach-IsOrderly :
      {items : List FeedItem} {s : S} {k : ℕ} {x : WorkerPool S F}
      → MyReach v digest has_client scrape num_workers items s k x
      → x.shared.cancelled ≡ false
      → IsOrderly num_workers x
  unfolding start_pool
  Reach-IsOrderly start c = record {
    size = idle_workers-length F num_workers;
    sent = λ shut. cc;
    ended = λ some_end. cc (idle_workers-stopped F num_workers);
  }
  Reach-IsOrderly (next r t) c =
      let before = sym (Step-cancelled v digest has_client scrape num_workers t) ∙ c in
      Step-IsOrderly t before (Reach-IsOrderly r before)
  Reach-IsOrderly (cancels r) c = cc
