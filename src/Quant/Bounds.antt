-- ===== src/Quant/Bounds.antt =====
-- The scores of pkg/quant/scoring.go stay in the range that the struct's comments promise.
use quant_indonesia_scraping.Prelude.{
  Bool, true, false, pos, negsuc, arith, inl, inr, Bool-cases, Option-cases, ◌&&◌, if◌then◌else◌,
  is_nil,
}
use quant_indonesia_scraping.Float.{Float64, IsIeee, IsNumber, ◌≼◌}
use quant_indonesia_scraping.Quant.{
  CompositeInput, Tally, zero_f, one_f, minus_one, clamp, average, compute_technical_factor,
  compute_momentum_factor, compute_flow_factor, compute_composite,
}

module _ {F : Type 0} ⦃d : Float64 F⦄ where
  -- NaN, or between -1 and 1.
  abbrev pub InUnit : F → Type 0
  InUnit v = IsNumber v → (minus_one ≼ v) × (v ≼ one_f)

  module _ (ieee : IsIeee F) where
    open ieee use {not-lt→le, le_number, lit_mono}

    -- By the laws of IEEE 754, between two bounds in order, a clamped value is NaN or lies within
    -- them.
    pub clamp_bounds :
        (v lo hi : F)
        → lo ≼ hi
        → IsNumber (clamp v lo hi)
        → (lo ≼ clamp v lo hi) × (clamp v lo hi ≼ hi)
    unfolding clamp
    clamp_bounds v lo hi h n = ground (arith, le_number lo hi h, not-lt→le v lo, not-lt→le hi v)

    clamp-InUnit : (v : F) → InUnit (clamp v minus_one one_f)
    clamp-InUnit v = clamp_bounds v minus_one one_f (lit_mono (negsuc 0) (pos 1) 0 (omega arith))

    zero_f-InUnit : InUnit zero_f
    zero_f-InUnit n =
        (lit_mono (negsuc 0) (pos 0) 0 (omega arith), lit_mono (pos 0) (pos 1) 0 (omega arith))

    average-InUnit : (t : Tally F) → InUnit (average t)
    unfolding average
    average-InUnit t = elim (Bool-cases (d.eq t.count zero_f)) [
      | inl e ↦ rw e zero_f-InUnit
      | inr e ↦ rw e (clamp-InUnit _)
    ]

    if-InUnit : (b : Bool) (x y : F) → InUnit x → InUnit y → InUnit (if b then x else y)
    if-InUnit true x y hx hy = hx
    if-InUnit false x y hx hy = hy

    technical-InUnit : (i : CompositeInput F) → InUnit (compute_technical_factor i)
    unfolding compute_technical_factor
    technical-InUnit i =
        if-InUnit (is_nil i.tech_signal && is_nil i.rsi14) _ _ zero_f-InUnit (average-InUnit _)

    momentum-InUnit : (i : CompositeInput F) → InUnit (compute_momentum_factor i)
    unfolding compute_momentum_factor
    momentum-InUnit i = average-InUnit _

    flow-InUnit : (i : CompositeInput F) → InUnit (compute_flow_factor i)
    unfolding compute_flow_factor
    flow-InUnit i = elim (Option-cases i.net_foreign_flow) [
      | inl e ↦ rw e zero_f-InUnit
      | inr (v, e) ↦ rw e (clamp-InUnit _)
    ]

    -- By the laws of IEEE 754, the four factors and the composite score are each NaN or between -1
    -- and 1, whatever the input.
    pub compute_composite-InUnit :
        (i : CompositeInput F)
        → let r = compute_composite i in
          InUnit r.sentiment_factor
          × InUnit r.technical_factor
          × InUnit r.momentum_factor
          × InUnit r.flow_factor
          × InUnit r.composite_score
    unfolding compute_composite
    compute_composite-InUnit i =
        (clamp-InUnit _, technical-InUnit i, momentum-InUnit i, flow-InUnit i, clamp-InUnit _)
