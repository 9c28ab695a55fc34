-- ===== src/Technical/Signals.antt =====
-- What it takes for computeTechnicalSignal to recommend to buy or to sell.
use mathlib.Core.Option
use quant_indonesia_scraping.Prelude.{
  ◌<◌, ◌≡◌, ◌⊎◌, Bool, true, false, Option, none, some, List, pos, arith, length, inl, inr, refl,
  Option-cases,
}
use quant_indonesia_scraping.Float.{Float64, exceeds, below}
use quant_indonesia_scraping.Domain.{buy, sell, hold}
use quant_indonesia_scraping.Technical.{
  TechnicalResult, compute_technical_signal, indicators, analyze, last_two,
}
use quant_indonesia_scraping.Technical.Warmup.{analyze_warmup}

module _ {F : Type 0} ⦃d : Float64 F⦄ where
  open d use {lit, mul, lt}

  abbrev pub is_over : Option F → Option F → Bool
  is_over (some a) (some b) = lt b a
  is_over _ _ = false

  -- The price is above 102% of MA20.
  abbrev pub above_trend : TechnicalResult F → Bool
  above_trend r = below (Option.map (λ m. mul m (lit (pos 102) 2)) r.ma20) r.last_price

  -- The price is below 98% of MA20.
  abbrev pub under_trend : TechnicalResult F → Bool
  under_trend r = exceeds (Option.map (λ m. mul m (lit (pos 98) 2)) r.ma20) r.last_price

  -- A BUY needs an RSI below 40 (or below 30), or else all three of the other signs: a price above
  -- 102% of MA20, MA20 above MA50, and a positive MACD histogram.
  pub buy_needs :
      (r : TechnicalResult F)
      → compute_technical_signal r ≡ buy
      → (below r.rsi14 (lit (pos 40) 0) ≡ true)
        ⊎ (below r.rsi14 (lit (pos 30) 0) ≡ true)
        ⊎ ((above_trend r ≡ true)
            × (is_over r.ma20 r.ma50 ≡ true)
            × (exceeds r.macd_hist (lit (pos 0) 0) ≡ true))
  unfolding compute_technical_signal
  buy_needs r h = ground arith

  -- A SELL needs an RSI above 70 (or above 80), or else all three of the other signs: a price below
  -- 98% of MA20, MA20 not above MA50, and a MACD histogram that is not positive.
  pub sell_needs :
      (r : TechnicalResult F)
      → compute_technical_signal r ≡ sell
      → (exceeds r.rsi14 (lit (pos 70) 0) ≡ true)
        ⊎ (exceeds r.rsi14 (lit (pos 80) 0) ≡ true)
        ⊎ ((under_trend r ≡ true)
            × (is_over r.ma20 r.ma50 ≡ false)
            × (exceeds r.macd_hist (lit (pos 0) 0) ≡ false))
  unfolding compute_technical_signal
  sell_needs r h = ground arith

  hold_without_ma :
      (r : TechnicalResult F)
      → r.ma20 ≡ none
      → r.macd_hist ≡ none
      → compute_technical_signal r ≡ hold
  unfolding compute_technical_signal
  hold_without_ma r h k = ground arith

  signal_after :
      (r : TechnicalResult F)
      → compute_technical_signal (record r { signal = compute_technical_signal r })
        ≡ compute_technical_signal r
  unfolding compute_technical_signal
  signal_after r = refl

  analyze-signal :
      (prices : List F) {r : TechnicalResult F}
      → analyze prices ≡ some r
      → r.signal ≡ compute_technical_signal r
  unfolding analyze
  analyze-signal prices {r} h = elim (Option-cases (last_two prices)) [
    | inl e ↦ ground arith
    | inr (p, e) ↦ ground (arith, signal_after (indicators prices p.0 p.1))
  ]

  -- With fewer than 20 prices the technical signal is HOLD.
  pub analyze_short :
      (prices : List F) {r : TechnicalResult F}
      → analyze prices ≡ some r
      → length prices < 20
      → r.signal ≡ hold
  unfolding analyze
  analyze_short prices {r} h short =
      ground (arith, analyze_warmup prices h, analyze-signal prices h, hold_without_ma r)
