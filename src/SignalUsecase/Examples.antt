-- ===== src/SignalUsecase/Examples.antt =====
-- A signal with a fortnight of rising prices.
use quant_indonesia_scraping.Prelude.{
  ℕ, zero, suc, ◌*◌, ◌≡◌, ◌↔◌, refl, true, none, some, List, [], ◌∷◌, codes, pos, is_some, inl, inr,
  arith,
}
use quant_indonesia_scraping.Float.{exceeds, ◌≼◌}
use quant_indonesia_scraping.Float.Decimal.{Decimal, num, decimal, decimal-IsIeee}
use quant_indonesia_scraping.Domain.{StockSignal, StockPrice, buy, hold}
use quant_indonesia_scraping.Quant.Bounds.{InUnit}
use quant_indonesia_scraping.SignalUsecase.{
  invalid_input, getting, enrich_with_technicals, with_sentiment, price_vs, default_period,
  get_signals, get_history,
}
use quant_indonesia_scraping.SignalUsecase.Enrich.{enrich_buy}

abbrev bbca : StockSignal Decimal
bbca = record {
  symbol = codes "BBCA";
  company_name = codes "Bank Central Asia";
  sector = codes "Financial Services";
  signal = hold;
  average_score = num (pos 4_000);
  article_count = 3;
  bullish_articles = 2;
  bearish_articles = 0;
  neutral_articles = 1;
  period = codes "7d";
  generated_at = 0;
  ma20 = none;
  ma50 = none;
  rsi14 = none;
  last_price = none;
  price_change_pct = none;
  technical_signal = none;
  composite_score = num (pos 0);
  confidence = num (pos 0);
}

-- A price of n rupiah for each of the last n days, the latest first.
abbrev days : ℕ → List (StockPrice Decimal)
days zero = []
days (suc n) =
    record {
      symbol = codes "BBCA";
      date = [];
      close_price = num (pos (suc n * 10_000));
      open_price = none;
      high_price = none;
      low_price = none;
      volume = none;
    }
    ∷ days n

few_days :
    enrich_with_technicals (some (days 14)) bbca ≡ record bbca { composite_score = num (pos 4_000) }
unfolding enrich_with_technicals with_sentiment
few_days = refl

no_ratio : price_vs (num (pos 10_000)) (some (num (pos 0))) ≡ none
unfolding price_vs
no_ratio = refl

-- The repository is asked for seven days.
empty_period :
    get_signals {F = Decimal}
      (λ less signals. signals)
      (λ filter. inl filter.period)
      (λ symbol. none)
      (record { symbol = []; sector = []; period = [] })
    ≡ inl (getting (codes "7d"))
unfolding get_signals default_period
empty_period = refl

no_symbol : get_history {P = ℕ} (λ symbol n. inr []) [] (pos 7) ≡ inl invalid_input
unfolding get_history
no_symbol = refl

enrich_buy_example :
    let e = enrich_with_technicals (some (days 15)) bbca in
    ((e.signal ≡ buy) ↔ (
      (decimal.lit (pos 25) 2 ≼ e.composite_score)
      × ¬ (exceeds e.rsi14 (decimal.lit (pos 75) 0) ≡ true)))
    × InUnit e.composite_score
    × (is_some e.rsi14 ≡ true)
enrich_buy_example = enrich_buy decimal-IsIeee (days 15) bbca (omega arith)
