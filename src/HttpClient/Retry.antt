-- ===== src/HttpClient/Retry.antt =====
-- Which attempts GET makes, and what it returns.
use native.Mathlib.Decide.{dec_lt}
use quant_indonesia_scraping.Prelude.{
  ℕ, zero, suc, ◌+◌, ◌≤◌, ◌<◌, ◌≡◌, ◌≢◌, ◌⊎◌, refl, Option, none, some, Text, arith, inl, inr,
}
use quant_indonesia_scraping.HttpClient.{
  Client, Reply, failed, unreadable, answered, Round, LastError, GetResult, got, client_error,
  exhausted, Verdict, finished, retry, attempt_once, judge, judge_reply, get_loop, get,
}

-- The attempt `n` ends in a retry.
abbrev pub Retries : (ℕ → Round) → ℕ → Type 0
Retries rounds n = (err : LastError) × (attempt_once n (rounds n) ≡ retry err)

-- What the loop does: it stops at the first attempt that is no retry, or after the last one.
abbrev pub Outcome : (ℕ → Round) → ℕ → GetResult × ℕ → Type 0
Outcome rounds total (result, made) =
    ((n : ℕ) × (made ≡ n + 1)
      × (n < total)
      × ((k : ℕ) → k < n → Retries rounds k)
      × (attempt_once n (rounds n) ≡ finished result))
    ⊎ ((made ≡ total)
        × ((k : ℕ) → k < total → Retries rounds k)
        × ((last : Option LastError) × (result ≡ exhausted last)))

Verdict-cases :
    (v : Verdict)
    → ((result : GetResult) × (v ≡ finished result)) ⊎ ((err : LastError) × (v ≡ retry err))
Verdict-cases (finished result) = inl (result, refl)
Verdict-cases (retry err) = inr (err, refl)

grow :
    (rounds : ℕ → Round) (a : ℕ)
    → ((k : ℕ) → k < a → Retries rounds k)
    → Retries rounds a
    → (k : ℕ) → k < a + 1
    → Retries rounds k
grow rounds a before here k h = elim (dec_lt k a) [
  | yes p ↦ before k p
  | no p ↦ let e : k ≡ a = omega arith in rw e here
]

get_loop_lem :
    (rounds : ℕ → Round) (left a : ℕ) (last : Option LastError)
    → ((k : ℕ) → k < a → Retries rounds k)
    → Outcome rounds (a + left) (get_loop rounds left a last)
unfolding get_loop
get_loop_lem rounds zero a last before =
    inr (omega arith, λ k h. before k (omega arith), (last, refl))
get_loop_lem rounds (suc left) a last before = elim (Verdict-cases (attempt_once a (rounds a))) [
  | inl (result, e) ↦ rw (e, get_loop) (inl (a, refl, omega arith, before, e))
  | inr (err, e) ↦
      let rest = get_loop_lem rounds left (a + 1) (some err) (grow rounds a before (err, e)) in
      let same : a + 1 + left ≡ a + suc left = omega arith in rw (e, get_loop) (rw same at rest)
]

-- GET stops at the first attempt that is no retry and returns what that attempt gave, or makes
-- maxRetries + 1 attempts, all of them retries, and reports that they are used up.
pub get-Outcome :
    (c : Client) (rounds : ℕ → Round) → Outcome rounds (c.max_retries + 1) (get c rounds)
unfolding get
get-Outcome c rounds =
    let same : 0 + (c.max_retries + 1) ≡ c.max_retries + 1 = omega arith in
    rw same at (get_loop_lem rounds (c.max_retries + 1) 0 none (λ k h. absurd (omega arith)))

attempt-got :
    (a : ℕ) (r : Round) (body : Text) (status : ℕ)
    → attempt_once a r ≡ finished (got body status)
    → (r.reply ≡ answered status body) × (status < 400)
unfolding attempt_once
attempt-got a r body status h = ground arith

judge_reply-client_error :
    (q : Reply) (status : ℕ)
    → judge_reply q ≡ finished (client_error status)
    → (body : Text) × (q ≡ answered status body) × (400 ≤ status) × (status < 500) × (status ≢ 429)
unfolding judge_reply judge
judge_reply-client_error failed status h = cc
judge_reply-client_error unreadable status h = cc
judge_reply-client_error (answered s body) status h =
    (body, ground arith, ground arith, ground arith, ground arith)

attempt-client_error :
    (a : ℕ) (r : Round) (status : ℕ)
    → attempt_once a r ≡ finished (client_error status)
    → judge_reply r.reply ≡ finished (client_error status)
unfolding attempt_once
attempt-client_error a r status h = ground arith

attempt-retry :
    (a : ℕ) (r : Round) (status : ℕ) (body : Text) {err : LastError}
    → attempt_once a r ≡ retry err
    → r.reply ≡ answered status body
    → (500 ≤ status) ⊎ (status ≡ 429)
unfolding attempt_once
attempt-retry a r status body h e = ground arith

-- A successful GET returns the answer of its last attempt, with a status below 400; every answer
-- before it was a 429 or had a status from 500 up, and at most maxRetries + 1 attempts were made.
pub get-got :
    (c : Client) (rounds : ℕ → Round) (body : Text) (status made : ℕ)
    → get c rounds ≡ (got body status, made)
    → (n : ℕ) × (made ≡ n + 1)
      × (n ≤ c.max_retries)
      × ((rounds n).reply ≡ answered status body)
      × (status < 400)
      × ((k s : ℕ) (b : Text) → k < n → (rounds k).reply ≡ answered s b → (500 ≤ s) ⊎ (s ≡ 429))
get-got c rounds body status made h = elim (rw h at (get-Outcome c rounds)) [
  | inl (n, e, le, before, here) ↦
      let found = attempt-got n (rounds n) body status here in
      (
        n,
        e,
        omega arith,
        found.0,
        found.1,
        λ k s b p q. attempt-retry k (rounds k) s b (before k p).1 q,
      )
  | inr (e, all, (last, f)) ↦ cc
]

-- A client error ends GET at once: the last attempt was answered with it, its status is from 400 to
-- 499 and not 429, and every attempt before it was a retry.
pub get-client_error :
    (c : Client) (rounds : ℕ → Round) (status made : ℕ)
    → get c rounds ≡ (client_error status, made)
    → (n : ℕ) × (made ≡ n + 1)
      × (n ≤ c.max_retries)
      × ((k : ℕ) → k < n → Retries rounds k)
      × ((body : Text) × ((rounds n).reply ≡ answered status body)
          × (400 ≤ status)
          × (status < 500)
          × (status ≢ 429))
get-client_error c rounds status made h = elim (rw h at (get-Outcome c rounds)) [
  | inl (n, e, le, before, here) ↦ (
    n,
    e,
    omega arith,
    before,
    judge_reply-client_error (rounds n).reply status
        (attempt-client_error n (rounds n) status here),
  )
  | inr (e, all, (last, f)) ↦ cc
]
