-- ===== src/Technical/Warmup.antt =====
-- How many prices each indicator of pkg/technical needs.
use quant_indonesia_scraping.Prelude.{
  ℕ, zero, suc, ◌+◌, ◌-◌, ◌≤◌, ◌<◌, ◌≡◌, ◌↔◌, refl, true, Option, none, some, List, [], ◌∷◌, leb,
  length, take, arith, length-append, length-take, is_some,
}
use quant_indonesia_scraping.Float.{Float64}
use quant_indonesia_scraping.Technical.{
  TechnicalResult, calc_sma, calc_ema, calc_rsi, macd_at, append_if, macd_loop, macd_values,
  calc_macd, last_two, analyze,
}

last_two-none {ℓ} : {A : Type ℓ} (xs : List A) → (last_two xs ≡ none) ↔ (length xs < 2)
unfolding last_two
last_two-none [] = ground arith
last_two-none (a ∷ []) = ground arith
last_two-none (a ∷ b ∷ []) = ground arith
last_two-none (a ∷ b ∷ c ∷ xs) = ground (arith, last_two-none (b ∷ c ∷ xs))

module _ {F : Type 0} ⦃d : Float64 F⦄ where
  calc_sma_warm :
      (prices : List F) (n : ℕ) → is_some (calc_sma prices (suc n)) ≡ leb (suc n) (length prices)
  unfolding calc_sma
  calc_sma_warm prices n = ground arith

  calc_ema_warm :
      (prices : List F) (n : ℕ) → is_some (calc_ema prices (suc n)) ≡ leb (suc n) (length prices)
  unfolding calc_ema
  calc_ema_warm prices n = ground arith

  calc_rsi_warm :
      (prices : List F) (n : ℕ)
      → is_some (calc_rsi prices (suc n)) ≡ leb (suc (suc n)) (length prices)
  unfolding calc_rsi
  calc_rsi_warm prices n = ground arith

  macd_at_warm : (prices : List F) → is_some (macd_at prices) ≡ leb 26 (length prices)
  unfolding macd_at
  macd_at_warm prices = ground (arith, calc_ema_warm prices 11, calc_ema_warm prices 25)

  length-append_if :
      (values : List F) (o : Option F)
      → is_some o ≡ true
      → length (append_if values o) ≡ length values + 1
  length-append_if values none h = cc
  length-append_if values (some v) h = omega (arith, length-append values (v ∷ []))

  long_prefix :
      (i : ℕ) (prices : List F)
      → 26 ≤ i
      → i ≤ length prices
      → is_some (macd_at (take i prices)) ≡ true
  long_prefix i prices h k = ground (arith, macd_at_warm (take i prices), length-take i prices)

  length-macd_loop :
      (rounds i : ℕ) (prices values : List F)
      → 26 ≤ i
      → i + rounds ≤ length prices + 1
      → length (macd_loop rounds i prices values) ≡ length values + rounds
  unfolding macd_loop
  length-macd_loop zero i prices values h k = omega arith
  length-macd_loop (suc rounds) i prices values h k =
      let next = append_if values (macd_at (take i prices)) in
      let warm = long_prefix i prices h (omega arith) in
      omega (
        arith,
        length-append_if values (macd_at (take i prices)) warm,
        length-macd_loop rounds (i + 1) prices next (omega arith) (omega arith),
      )

  length-rounds :
      (rounds : ℕ) (prices : List F)
      → rounds ≤ length prices + 1 - 26
      → length (macd_loop rounds 26 prices []) ≡ rounds
  unfolding macd_loop
  length-rounds zero prices h = refl
  length-rounds (suc rounds) prices h =
      omega (arith, length-macd_loop (suc rounds) 26 prices [] (omega arith) (omega arith))

  length-macd_values : (prices : List F) → length (macd_values prices) ≡ length prices + 1 - 26
  unfolding macd_values
  length-macd_values prices = length-rounds (length prices + 1 - 26) prices (omega arith)

  -- Each indicator is there exactly from its number of prices on: MA20 from 20, RSI14 from 15, MA50
  -- from 50, the MACD line from 26, its signal line and histogram from 34.
  pub analyze_warmup :
      (prices : List F) {r : TechnicalResult F}
      → analyze prices ≡ some r
      → (is_some r.ma20 ≡ leb 20 (length prices))
        × (is_some r.ma50 ≡ leb 50 (length prices))
        × (is_some r.rsi14 ≡ leb 15 (length prices))
        × (is_some r.macd_line ≡ leb 26 (length prices))
        × (is_some r.macd_signal ≡ leb 34 (length prices))
        × (is_some r.macd_hist ≡ leb 34 (length prices))
  unfolding analyze calc_macd
  analyze_warmup prices h = ground (
    arith,
    calc_sma_warm prices 19,
    calc_sma_warm prices 49,
    calc_rsi_warm prices 13,
    macd_at_warm prices,
    calc_ema_warm (macd_values prices) 8,
    length-macd_values prices,
  )

  -- There is no result exactly for fewer than two prices.
  pub analyze-none : (prices : List F) → (analyze prices ≡ none) ↔ (length prices < 2)
  unfolding analyze
  analyze-none prices = ground (arith, last_two-none prices)
