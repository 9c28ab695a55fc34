-- ===== src/HttpClient/Backoff.antt =====
-- How long the client waits before a retry.
use native.Mathlib.Nat.{pow-suc}
use quant_indonesia_scraping.Prelude.{
  ℕ, zero, suc, ◌-◌, ◌*◌, ◌/◌, ◌^◌, ◌≤◌, ◌<◌, ◌≡◌, arith, ltb, if◌then◌else◌,
}
use quant_indonesia_scraping.HttpClient.{base_backoff, max_backoff, raw_backoff, calculate_backoff}

pow_pos : (n : ℕ) → 0 < 2 ^ n
pow_pos zero = omega arith
pow_pos (suc n) = rw pow-suc (omega (arith, pow_pos n))

raw_backoff_bounds :
    (attempt : ℕ) → (base_backoff ≤ raw_backoff attempt) × (raw_backoff attempt ≤ max_backoff)
unfolding raw_backoff
raw_backoff_bounds attempt = ground (arith, pow_pos (attempt - 1))

-- If rand n is below a positive n, the wait is at least half of the backoff and less than the
-- backoff, which doubles from 0.5 s at the first retry and stays at 30 s; so every wait lies
-- between 0.25 s and 30 s.
pub calculate_backoff_bounds :
    (rand : ℕ → ℕ) (attempt : ℕ)
    → ((n : ℕ) → 0 < n → rand n < n)
    → let wait = calculate_backoff rand attempt in
      (raw_backoff attempt / 2 ≤ wait)
      × (wait < raw_backoff attempt)
      × (250_000_000 ≤ wait)
      × (wait < max_backoff)
unfolding calculate_backoff
calculate_backoff_bounds rand attempt h = omega (
  arith,
  raw_backoff_bounds attempt,
  h (raw_backoff attempt / 2) (omega (arith, raw_backoff_bounds attempt)),
)

pow_step : (n : ℕ) → 2 ^ (suc (suc n) - 1) ≡ 2 * 2 ^ (suc n - 1)
pow_step n =
    let e : suc (suc n) - 1 ≡ suc n = omega arith in
    let f : suc n - 1 ≡ n = omega arith in rw (e, f, pow-suc) (omega arith)

-- From one retry to the next the backoff doubles, up to the cap.
pub raw_backoff_doubles :
    (n : ℕ)
    → raw_backoff (suc (suc n))
      ≡ (if ltb max_backoff (2 * raw_backoff (suc n)) then max_backoff else 2 * raw_backoff (suc n))
unfolding raw_backoff
raw_backoff_doubles n = ground (arith, pow_step n)
