-- ===== src/Worker/Pool/Ends.antt =====
-- Where the pool can make no step, it has collected a result for each item.
use quant_indonesia_scraping.Prelude.{
  ℕ, ◌<◌, ◌≡◌, ◌⊎◌, refl, ap, sym, ◌∙◌, Bool, true, false, List, [], ◌∷◌, ◌++◌, Text, length, any,
  arith, inl, inr, Bool-cases, All,
}
use quant_indonesia_scraping.Worker.{FeedItem, Valkey}
use quant_indonesia_scraping.Worker.Pool.{
  Worker, waiting, checking, scraping, sending, stopped, Shared, WorkerPool, takes, leaves, checks,
  scrapes, sends, Step, submits, closes, collects, works,
}
use quant_indonesia_scraping.Worker.Pool.Accounts.{
  sum_of, items_weight, results_weight, worker_weight, pool_weight, Reach-accounts, MyTurn, MyStep,
  MyReach,
}
use quant_indonesia_scraping.Worker.Pool.Orderly.{is_stopped, IsOrderly, Reach-IsOrderly}

List-cases : {A : Type 0} (xs : List A) → (xs ≡ []) ⊎ ((y : A) × (ys : List A) × (xs ≡ y ∷ ys))
List-cases [] = inl refl
List-cases (x ∷ xs) = inr (x, xs, refl)

-- A worker that has not returned, with those on its sides.
running_worker :
    {F : Type 0} (ws : List (Worker F))
    → ((before after : List (Worker F)) × (w : Worker F) × (ws ≡ before ++ (w ∷ after))
        × (is_stopped w ≡ false))
      ⊎ All (λ w. w ≡ stopped) ws
running_worker [] = inr tt
running_worker (stopped ∷ ws) = elim (running_worker ws) [
  | inl (before, after, w, e, h) ↦ inl (stopped ∷ before, after, w, ap (λ l. stopped ∷ l) e, h)
  | inr h ↦ inr (refl, h)
]
running_worker (waiting ∷ ws) = inl ([], ws, waiting, refl, refl)
running_worker (checking i ∷ ws) = inl ([], ws, checking i, refl, refl)
running_worker (scraping i ∷ ws) = inl ([], ws, scraping i, refl, refl)
running_worker (sending r ∷ ws) = inl ([], ws, sending r, refl, refl)

stopped-weight :
    {F : Type 0} (f : Text → ℕ) (ws : List (Worker F))
    → All (λ w. w ≡ stopped) ws
    → sum_of (worker_weight f) ws ≡ 0
stopped-weight f [] h = refl
stopped-weight f (w ∷ ws) h = omega (arith, ap (worker_weight f) h.0, stopped-weight f ws h.1)

stopped_any :
    {F : Type 0} (n : ℕ) (ws : List (Worker F))
    → All (λ w. w ≡ stopped) ws
    → length ws ≡ n
    → 0 < n
    → any is_stopped ws ≡ true
stopped_any n [] h e p = absurd (omega (arith, e, p))
stopped_any n (w ∷ ws) h e p = rw h.0 refl

module _ {S F : Type 0} (v : Valkey S) (digest : Text → Text) (has_client : Bool)
    (scrape : Text → Text ⊎ Text) (num_workers : ℕ) where
  worker_turns :
      (p : Shared S F) (w : Worker F)
      → is_stopped w ≡ false
      → p.results ≡ []
      → 0 < num_workers
      → ((q : Shared S F) × (w' : Worker F) × MyTurn v digest has_client scrape num_workers p w q
            w')
        ⊎ ((p.jobs ≡ []) × (p.closed ≡ false))
  worker_turns p waiting h e n = elim (List-cases p.jobs) [
    | inr (item, rest, j) ↦ inl (record p { jobs = rest }, checking item, takes item rest j)
    | inl j ↦ elim (Bool-cases p.closed) [
      | inl c ↦ inl (p, stopped, leaves j c)
      | inr c ↦ inr (j, c)
    ]
  ]
  worker_turns p (checking item) h e n = inl (_, _, checks 0 item)
  worker_turns p (scraping item) h e n = inl (_, _, scrapes 0 0 item)
  worker_turns p (sending r) h e n = inl (_, _, sends r (omega (arith, ap length e, n)))
  worker_turns p stopped h e n = cc

  abbrev CanStep : WorkerPool S F → Type 0
  CanStep x = (y : WorkerPool S F) × MyStep v digest has_client scrape num_workers x y

  -- The submission goes on where a worker waits in vain.
  submission_steps :
      (x : WorkerPool S F)
      → x.shared.jobs ≡ []
      → x.shared.closed ≡ false
      → 0 < num_workers
      → CanStep x
  submission_steps x j o n = elim (List-cases x.shared.unsent) [
    | inl e ↦ (_, closes o (inl e))
    | inr (item, rest, e) ↦ (_, submits item rest o e (omega (arith, ap length j, n)))
  ]

  nothing_left :
      (f : Text → ℕ) (x : WorkerPool S F)
      → IsOrderly num_workers x
      → x.shared.results ≡ []
      → All (λ w. w ≡ stopped) x.workers
      → 0 < num_workers
      → pool_weight f x ≡ results_weight f x.shared.collected
  nothing_left f x h e all n =
      let (shut, taken) = h.ended (stopped_any num_workers x.workers all h.size n) in
      omega (
        arith,
        ap (items_weight f) (h.sent shut),
        ap (items_weight f) taken,
        ap (results_weight f) e,
        stopped-weight f x.workers all,
      )

  steps_or_collected :
      (x : WorkerPool S F)
      → IsOrderly num_workers x
      → 0 < num_workers
      → CanStep x ⊎ ((f : Text → ℕ) → pool_weight f x ≡ results_weight f x.shared.collected)
  steps_or_collected x h n = elim (List-cases x.shared.results) [
    | inr (r, rest, e) ↦ inl (_, collects r rest e)
    | inl e ↦ elim (running_worker x.workers) [
      | inr all ↦ inr (λ f. nothing_left f x h e all n)
      | inl (before, after, w, at, goes) ↦ elim (worker_turns x.shared w goes e n) [
        | inl (q, w', t) ↦ inl (_, works before after w w' q at t)
        | inr (j, o) ↦ inl (submission_steps x j o n)
      ]
    ]
  ]

  -- A pool with at least one worker whose context is not cancelled never blocks: it can make a step,
  -- or it has collected exactly one result for each item that the feeds gave, counted by URL with
  -- any weights.
  pub Reach-completes :
      {items : List FeedItem} {s : S} {k : ℕ} {x : WorkerPool S F}
      → 0 < num_workers
      → MyReach v digest has_client scrape num_workers items s k x
      → x.shared.cancelled ≡ false
      → ((y : WorkerPool S F) × Step v digest has_client scrape num_workers x y)
        ⊎ ((f : Text → ℕ) → results_weight f x.shared.collected ≡ items_weight f items)
  Reach-completes {x} n r c =
      elim (steps_or_collected x (Reach-IsOrderly v digest has_client scrape num_workers r c) n) [
        | inl step ↦ inl step
        | inr all ↦
            inr (λ f. sym (all f) ∙ (Reach-accounts v digest has_client scrape num_workers f r).1 c)
      ]
