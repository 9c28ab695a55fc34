-- ===== src/Quant/Examples.antt =====
-- Runs of the composite score over decimals.
use quant_indonesia_scraping.Prelude.{◌≡◌, ◌↔◌, ◌⊎◌, refl, none, some, pos, negsuc}
use quant_indonesia_scraping.Float.{◌≼◌, ◌≺◌}
use quant_indonesia_scraping.Float.Decimal.{Decimal, num, decimal, decimal-IsIeee}
use quant_indonesia_scraping.Domain.{buy, sell, hold}
use quant_indonesia_scraping.Quant.{
  CompositeInput, zero_f, clamp, compute_composite, determine_signal, compute_technical_factor,
  compute_momentum_factor, compute_flow_factor, compute_confidence, average, rsi_score, ma_score,
  fifth_score, tally_volume, vol_signal,
}
use quant_indonesia_scraping.Quant.Bounds.{InUnit, compute_composite-InUnit}
use quant_indonesia_scraping.Quant.Signals.{IsAbove, compute_composite-sell}

-- Good news, a rising price, and an RSI of 60.
abbrev rising : CompositeInput Decimal
rising = record {
  sentiment_score = num (pos 8000);
  rsi14 = some (num (pos 600_000));
  price_vs_ma20 = some (num (pos 10_500));
  price_vs_ma50 = none;
  macd_hist = some (num (pos 20_000));
  tech_signal = some hold;
  price_change_pct = num (pos 25_000);
  volume_ratio = some (num (pos 20_000));
  net_foreign_flow = none;
}

-- The same with an RSI of 81.
abbrev overbought : CompositeInput Decimal
overbought = record rising { rsi14 = some (num (pos 810_000)) }

rising_buys : (compute_composite rising).signal ≡ buy
unfolding compute_composite determine_signal compute_technical_factor compute_momentum_factor
    compute_flow_factor compute_confidence clamp average rsi_score ma_score fifth_score tally_volume
    vol_signal
rising_buys = refl

overbought_holds : (compute_composite overbought).signal ≡ hold
unfolding compute_composite determine_signal compute_technical_factor compute_momentum_factor
    compute_flow_factor compute_confidence clamp average rsi_score ma_score fifth_score tally_volume
    vol_signal
overbought_holds = refl

compute_composite-InUnit_example :
    let r = compute_composite rising in
    InUnit r.sentiment_factor
    × InUnit r.technical_factor
    × InUnit r.momentum_factor
    × InUnit r.flow_factor
    × InUnit r.composite_score
compute_composite-InUnit_example = compute_composite-InUnit decimal-IsIeee rising

compute_composite-sell_example :
    let r = compute_composite overbought in
    (r.signal ≡ sell) ↔ (
      (r.composite_score ≼ decimal.lit (negsuc 24) 2)
      ⊎ (¬ (decimal.lit (pos 25) 2 ≼ r.composite_score)
          × IsAbove overbought (decimal.lit (pos 80) 0)
          × (r.sentiment_factor ≺ zero_f)))
compute_composite-sell_example = compute_composite-sell overbought decimal-IsIeee
