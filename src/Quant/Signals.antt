-- ===== src/Quant/Signals.antt =====
-- When pkg/quant/scoring.go recommends to buy, to sell or to hold.
use quant_indonesia_scraping.Prelude.{◌≡◌, refl, ◌↔◌, ◌⊎◌, true, pos, negsuc, arith}
use quant_indonesia_scraping.Float.{Float64, exceeds, IsIeee, ◌≼◌, ◌≺◌}
use quant_indonesia_scraping.Domain.{buy, sell}
use quant_indonesia_scraping.Quant.{CompositeInput, zero_f, determine_signal, compute_composite}

module _ {F : Type 0} ⦃d : Float64 F⦄ where
  open d use {lit, lt, le}

  -- The RSI is known and above the bound.
  abbrev pub IsAbove : CompositeInput F → F → Type 0
  IsAbove i bound = exceeds i.rsi14 bound ≡ true

  -- BUY exactly when the composite score reaches 0.25 and the RSI is not above 75.
  pub compute_composite-buy :
      (i : CompositeInput F)
      → let r = compute_composite i in
        (r.signal ≡ buy) ↔ ((lit (pos 25) 2 ≼ r.composite_score) × ¬ IsAbove i (lit (pos 75) 0))
  unfolding compute_composite determine_signal
  compute_composite-buy i = ground arith

  -- No score is both at least 0.25 and at most -0.25.
  thresholds_apart : (s : F) → IsIeee F → lit (pos 25) 2 ≼ s → s ≼ lit (negsuc 24) 2 → ⊥
  thresholds_apart s ieee h k =
      let apart =
        ieee.lit_strict (negsuc 24) (pos 25) 2 (omega arith) (omega arith) (omega arith) refl in
      cc (ieee.le_trans _ s _ h k, ieee.lt→not-le _ _ apart)

  -- SELL exactly when the score falls to -0.25, or lies below 0.25 (or is NaN) with an RSI above 80
  -- and a negative sentiment factor; a score from 0.25 up is never a SELL.
  pub compute_composite-sell :
      (i : CompositeInput F)
      → IsIeee F
      → let r = compute_composite i in
        (r.signal ≡ sell) ↔ (
          (r.composite_score ≼ lit (negsuc 24) 2)
          ⊎ (¬ (lit (pos 25) 2 ≼ r.composite_score)
              × IsAbove i (lit (pos 80) 0)
              × (r.sentiment_factor ≺ zero_f)))
  unfolding compute_composite determine_signal
  compute_composite-sell i ieee =
      ground (arith, thresholds_apart (compute_composite i).composite_score ieee)
