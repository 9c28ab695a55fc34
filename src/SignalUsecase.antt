-- ===== src/SignalUsecase.antt =====
-- usecase/signal_usecase.go: the signals of a period, enriched by technical and composite scores,
-- and the history of a symbol. The repositories are parameters. The goroutines of GetSignals work
-- on different signals, so that each signal is enriched by itself; sort.Slice is a parameter.
pub mod Enrich
mod Examples
use mathlib.Core.List.{reverse}
use quant_indonesia_scraping.Prelude.{
  ℕ, ◌<◌, Bool, true, false, Option, none, some, List, map, pos, Text, codes, is_empty, length, ltb,
  if◌then◌else◌, ◌⊎◌, inl, inr, ℤ, leb_ℤ,
}
use quant_indonesia_scraping.Float.{Float64}
use quant_indonesia_scraping.Domain.{StockSignal, SignalFilter, StockPrice, SignalType}
use quant_indonesia_scraping.Quant.{CompositeInput, CompositeResult, compute_composite}
use quant_indonesia_scraping.Technical.{TechnicalResult, analyze}

-- Where the three functions end with an error.
pub data SignalError : Type 0 where
  invalid_input : SignalError
  getting : Text → SignalError

pub default_period : SignalFilter → SignalFilter
default_period filter =
    if is_empty filter.period then record filter { period = codes "7d" } else filter

module _ {F : Type 0} ⦃d : Float64 F⦄ where
  open d use {lit, lt, div}

  -- `priceVsMA20` and `priceVsMA50`.
  pub price_vs : F → Option F → Option F
  price_vs last none = none
  price_vs last (some ma) = if lt (lit (pos 0) 0) ma then some (div last ma) else none

  pub composite_input : F → TechnicalResult F → CompositeInput F
  composite_input average tech = record {
    sentiment_score = average;
    rsi14 = tech.rsi14;
    price_vs_ma20 = price_vs tech.last_price tech.ma20;
    price_vs_ma50 = price_vs tech.last_price tech.ma50;
    macd_hist = tech.macd_hist;
    tech_signal = some tech.signal;
    price_change_pct = tech.price_change;
    volume_ratio = none;
    net_foreign_flow = none;
  }

  pub with_sentiment : StockSignal F → StockSignal F
  with_sentiment s = record s { composite_score = s.average_score }

  pub with_technicals : TechnicalResult F → StockSignal F → StockSignal F
  with_technicals tech s =
      let result = compute_composite (composite_input s.average_score tech) in
      record s {
        ma20 = tech.ma20;
        ma50 = tech.ma50;
        rsi14 = tech.rsi14;
        last_price = some tech.last_price;
        price_change_pct = some tech.price_change;
        technical_signal = some tech.signal;
        composite_score = result.composite_score;
        confidence = result.confidence;
        signal = result.signal;
      }

  -- The close prices, oldest first; ListBySymbol gives the latest first.
  pub close_prices : List (StockPrice F) → List F
  close_prices prices = reverse (map (λ (p : StockPrice F). p.close_price) prices)

  -- `prices` is what ListBySymbol gives for 90 days, `none` its error.
  pub enrich_with_technicals : Option (List (StockPrice F)) → StockSignal F → StockSignal F
  unfolding with_sentiment
  enrich_with_technicals none s = with_sentiment s
  enrich_with_technicals (some prices) s =
      if ltb (length prices) 15 then with_sentiment s else elim (analyze (close_prices prices)) [
        | none ↦ with_sentiment s
        | some tech ↦ with_technicals tech s
      ]

  -- `sort_by less` is sort.Slice; `stored` is GetStockSignals, with a nil slice as the empty list.
  pub get_signals :
      ((StockSignal F → StockSignal F → Bool) → List (StockSignal F) → List (StockSignal F))
      → (SignalFilter → Text ⊎ List (StockSignal F))
      → (Text → Option (List (StockPrice F)))
      → SignalFilter
      → SignalError ⊎ List (StockSignal F)
  unfolding default_period
  get_signals sort_by stored prices filter = elim (stored (default_period filter)) [
    | inl err ↦ inl (getting err)
    | inr signals ↦ inr (
        sort_by (λ (a b : StockSignal F). lt b.composite_score a.composite_score)
          (map (λ (s : StockSignal F). enrich_with_technicals (prices s.symbol) s) signals))
  ]

-- `history` is GetStockSentimentHistory.
pub get_history : {P : Type 0} → (Text → ℤ → Text ⊎ List P) → Text → ℤ → SignalError ⊎ List P
get_history history symbol days =
    if is_empty symbol
    then inl invalid_input
    else elim (history symbol (if leb_ℤ days (pos 0) then pos 30 else days)) [
      | inl err ↦ inl (getting err)
      | inr points ↦ inr points
    ]
