-- ===== src/Technical.antt =====
-- pkg/technical/indicators.go: moving averages, RSI, MACD and the technical signal of a series of
-- prices, oldest first. A period is a natural number: the code treats a negative one as it does 0.
pub mod Series
pub mod Warmup
pub mod Signals
mod Examples
use mathlib.Core.List.{foldl}
use quant_indonesia_scraping.Prelude.{
  ℕ, zero, suc, ◌+◌, ◌-◌, Bool, true, false, ◌&&◌, ◌||◌, Option, none, some, List, [], ◌∷◌, ◌++◌,
  pos, ltb, leb, ◌==◌, if◌then◌else◌, length, take, drop,
}
use quant_indonesia_scraping.Float.{Float64}
use quant_indonesia_scraping.Domain.{SignalType, buy, sell, hold}

pub record TechnicalResult (F : Type 0) : Type 0 where
  pub ma20 : Option F
  pub ma50 : Option F
  pub rsi14 : Option F
  pub macd_line : Option F
  pub macd_signal : Option F
  pub macd_hist : Option F
  pub last_price : F
  pub price_change : F
  pub signal : SignalType

-- The variables `avgGain` and `avgLoss` of CalcRSI.
pub record Averages (F : Type 0) : Type 0 where
  pub gain : F
  pub loss : F

-- The variables `buyScore` and `sellScore` of computeTechnicalSignal.
abbrev pub Scores : Type 0
Scores = ℕ × ℕ

decide : ℕ → ℕ → SignalType
decide b s = if leb 3 b && ltb s b then buy else if leb 3 s && ltb b s then sell else hold

-- The previous and the last price; `none` is `len(closePrices) < 2`.
pub last_two {ℓ} : {A : Type ℓ} → List A → Option (A × A)
last_two [] = none
last_two (a ∷ []) = none
last_two (a ∷ b ∷ []) = some (a, b)
last_two (a ∷ b ∷ c ∷ xs) = last_two (b ∷ c ∷ xs)

module _ {F : Type 0} ⦃d : Float64 F⦄ where
  open d use {lit, of_nat, add, sub, mul, div, abs, lt, le, eq}

  abbrev pub sum_from : F → List F → F
  sum_from = foldl add

  abbrev zero_f : F
  zero_f = lit (pos 0) 0

  -- `len(prices) < period || period <= 0`
  abbrev too_short : List F → ℕ → Bool
  too_short prices period = ltb (length prices) period || period == 0

  pub calc_sma : List F → ℕ → Option F
  calc_sma prices period =
      if too_short prices period
      then none
      else some (div (sum_from zero_f (drop (length prices - period) prices)) (of_nat period))

  abbrev pub multiplier : ℕ → F
  multiplier period = div (lit (pos 20) 1) (of_nat (period + 1))

  -- `ema = (prices[i]-ema)*multiplier + ema`
  abbrev pub ema_step : F → F → F → F
  ema_step k ema price = add (mul (sub price ema) k) ema

  pub calc_ema : List F → ℕ → Option F
  calc_ema prices period =
      let sma = div (sum_from zero_f (take period prices)) (of_nat period) in
      if too_short prices period
      then none
      else some (foldl (ema_step (multiplier period)) sma (drop period prices))

  -- `prices[i] - prices[i-1]` for i from 1.
  abbrev pub changes_from : F → List F → List F
  changes_from prev [] = []
  changes_from prev (p ∷ ps) = sub p prev ∷ changes_from p ps

  abbrev pub changes : List F → List F
  changes [] = []
  changes (p ∷ ps) = changes_from p ps

  abbrev gain_of : F → F
  gain_of change = if lt zero_f change then change else zero_f

  abbrev loss_of : F → F
  loss_of change = if lt zero_f change then zero_f else abs change

  -- The loop over the first `period` changes.
  abbrev collect : Averages F → F → Averages F
  collect a change =
      if lt zero_f change
      then record a { gain = add a.gain change }
      else record a { loss = add a.loss (abs change) }

  -- Wilder's smoothing with one more change.
  abbrev pub smooth : ℕ → Averages F → F → Averages F
  smooth period a change = record {
    gain = div (add (mul a.gain (of_nat (period - 1))) (gain_of change)) (of_nat period);
    loss = div (add (mul a.loss (of_nat (period - 1))) (loss_of change)) (of_nat period);
  }

  abbrev start : ℕ → List F → Averages F
  start period window =
      let sums : Averages F = foldl collect (record { gain = zero_f; loss = zero_f }) window in
      record { gain = div sums.gain (of_nat period); loss = div sums.loss (of_nat period) }

  pub wilder : List F → ℕ → Averages F
  wilder prices period =
      let moves = changes prices in
      foldl (smooth period) (start period (take period moves)) (drop period moves)

  abbrev pub rsi_of : Averages F → F
  rsi_of a =
      if eq a.loss zero_f
      then lit (pos 1000) 1
      else sub (lit (pos 1000) 1)
          (div (lit (pos 1000) 1) (add (lit (pos 10) 1) (div a.gain a.loss)))

  pub calc_rsi : List F → ℕ → Option F
  calc_rsi prices period =
      if ltb (length prices) (period + 1) || period == 0
      then none
      else some (rsi_of (wilder prices period))

  abbrev minus_if : Option F → Option F → Option F
  minus_if (some a) (some b) = some (sub a b)
  minus_if _ _ = none

  -- EMA12 - EMA26; `none` where one of the two is nil.
  pub macd_at : List F → Option F
  macd_at prices = minus_if (calc_ema prices 12) (calc_ema prices 26)

  abbrev append_if : List F → Option F → List F
  append_if values none = values
  append_if values (some v) = values ++ (v ∷ [])

  -- `for i := 26; i <= len(prices); i++`, with the rounds that are left.
  pub macd_loop : ℕ → ℕ → List F → List F → List F
  macd_loop zero i prices values = values
  macd_loop (suc rounds) i prices values =
      macd_loop rounds (i + 1) prices (append_if values (macd_at (take i prices)))

  pub macd_values : List F → List F
  unfolding macd_loop
  macd_values prices = macd_loop (length prices + 1 - 26) 26 prices []

  pub calc_macd : List F → Option F × Option F × Option F
  calc_macd prices =
      let signal_line = calc_ema (macd_values prices) 9 in
      if ltb (length prices) 26
      then (none, none, none)
      else (macd_at prices, signal_line, minus_if (macd_at prices) signal_line)

  -- One function for each of the four tests: what it adds to the two scores.
  rsi_scores : Option F → Scores
  rsi_scores none = (0, 0)
  rsi_scores (some r) =
      if lt r (lit (pos 30) 0)
      then (2, 0)
      else if lt r (lit (pos 40) 0)
      then (1, 0)
      else if lt (lit (pos 80) 0) r
      then (0, 2)
      else if lt (lit (pos 70) 0) r
      then (0, 1)
      else (0, 0)

  trend_scores : Option F → F → Scores
  trend_scores none last = (0, 0)
  trend_scores (some m) last =
      if lt zero_f last
      then (if lt (mul m (lit (pos 102) 2)) last
          then (1, 0)
          else if lt last (mul m (lit (pos 98) 2))
          then (0, 1)
          else (0, 0))
      else (0, 0)

  cross_scores : Option F → Option F → Scores
  cross_scores (some a) (some b) = if lt b a then (1, 0) else (0, 1)
  cross_scores _ _ = (0, 0)

  macd_scores : Option F → Scores
  macd_scores none = (0, 0)
  macd_scores (some h) = if lt zero_f h then (1, 0) else (0, 1)

  pub compute_technical_signal : TechnicalResult F → SignalType
  unfolding decide rsi_scores trend_scores cross_scores macd_scores
  compute_technical_signal r =
      let (b1, s1) = rsi_scores r.rsi14 in
      let (b2, s2) = trend_scores r.ma20 r.last_price in
      let (b3, s3) = cross_scores r.ma20 r.ma50 in
      let (b4, s4) = macd_scores r.macd_hist in decide (b1 + b2 + b3 + b4) (s1 + s2 + s3 + s4)

  abbrev price_change_of : F → F → F
  price_change_of prev last =
      if lt zero_f prev then mul (div (sub last prev) prev) (lit (pos 100) 0) else zero_f

  -- The result before its signal is set.
  pub indicators : List F → F → F → TechnicalResult F
  indicators prices prev last =
      let (line, signal_line, hist) = calc_macd prices in
      record {
        ma20 = calc_sma prices 20;
        ma50 = calc_sma prices 50;
        rsi14 = calc_rsi prices 14;
        macd_line = line;
        macd_signal = signal_line;
        macd_hist = hist;
        last_price = last;
        price_change = price_change_of prev last;
        signal = hold;
      }

  pub analyze : List F → Option (TechnicalResult F)
  unfolding last_two indicators
  analyze prices = elim (last_two prices) [
    | none ↦ none
    | some (prev, last) ↦
        let r = indicators prices prev last in
        some (record r { signal = compute_technical_signal r })
  ]
