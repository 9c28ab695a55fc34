-- ===== src/Quant/Confidence.antt =====
-- The confidence of pkg/quant/scoring.go counts the factors that agree with the composite score.
use quant_indonesia_scraping.Prelude.{
  ℕ, ◌+◌, ◌≤◌, ◌≡◌, refl, Bool, false, not, ◌&&◌, ◌||◌, List, [], ◌∷◌, pos, negsuc, arith, ◌==◌,
  if◌then◌else◌, Bool-cases, inl, inr,
}
use quant_indonesia_scraping.Float.{Float64, IsIeee, ◌≺◌}
use quant_indonesia_scraping.Quant.{
  CompositeInput, CompositeResult, zero_f, one_f, minus_one, agrees, sign_direction, count_factors,
  compute_confidence, compute_composite,
}

abbrev pub count_if {ℓ} : {A : Type ℓ} → (A → Bool) → List A → ℕ
count_if p [] = 0
count_if p (x ∷ xs) = (if p x then 1 else 0) + count_if p xs

module _ {F : Type 0} ⦃d : Float64 F⦄ where
  open d use {of_nat, div, lt, eq}

  abbrev pub is_nonzero : F → Bool
  is_nonzero f = not (eq f zero_f)

  -- Strictly on the same side of zero.
  abbrev pub same_side : F → F → Bool
  same_side c f = (lt zero_f f && lt zero_f c) || (lt f zero_f && lt c zero_f)

  -- The factor is not zero, and on the side of the composite score `c`.
  abbrev pub supports : F → F → Bool
  supports c f = is_nonzero f && same_side c f

  abbrev pub ratio : ℕ → ℕ → F
  ratio a t = if t == 0 then zero_f else div (of_nat a) (of_nat t)

  abbrev pub factors : CompositeResult F → List F
  factors r = r.sentiment_factor ∷ r.technical_factor ∷ r.momentum_factor ∷ r.flow_factor ∷ []

  abbrev voter : F → F → Bool
  voter direction f = is_nonzero f && agrees direction f

  count_factors_lem :
      (direction : F) (a t : ℕ) (fs : List F)
      → count_factors direction a t fs
        ≡ (a + count_if (voter direction) fs, t + count_if is_nonzero fs)
  unfolding count_factors
  count_factors_lem direction a t [] = ground arith
  count_factors_lem direction a t (f ∷ fs) = ground (
    arith,
    count_factors_lem direction (if not (eq f zero_f) && agrees direction f then a + 1 else a)
        (if eq f zero_f then t else t + 1) fs,
  )

  voters-le : (direction : F) (fs : List F) → count_if (voter direction) fs ≤ count_if is_nonzero fs
  voters-le direction [] = omega arith
  voters-le direction (f ∷ fs) = ground (arith, voters-le direction fs)

  module _ (ieee : IsIeee F) where
    lt_irrefl : (a b : F) → a ≺ b → lt b a ≡ false
    lt_irrefl a b h = elim (Bool-cases (lt b a)) [
      | inl e ↦ cc (ieee.lt→not-le a b h, ieee.lt→le b a e)
      | inr e ↦ e
    ]

    agrees_sign : (c f : F) → agrees (sign_direction c) f ≡ same_side c f
    unfolding sign_direction
    agrees_sign c f =
        let up = ieee.lit_strict (pos 0) (pos 1) 0 (omega arith) (omega arith) (omega arith) refl in
        let down =
          ieee.lit_strict (negsuc 0) (pos 0) 0 (omega arith) (omega arith) (omega arith) refl in
        ground (
          arith,
          up,
          down,
          lt_irrefl zero_f one_f up,
          lt_irrefl minus_one zero_f down,
          lt_irrefl zero_f c,
          lt_irrefl zero_f zero_f,
        )

    count_if-voter :
        (c : F) (fs : List F) → count_if (voter (sign_direction c)) fs ≡ count_if (supports c) fs
    count_if-voter c [] = refl
    count_if-voter c (f ∷ fs) = rw (agrees_sign c f, count_if-voter c fs)

    confidence_lem :
        (c : F) (fs : List F)
        → compute_confidence c fs ≡ ratio (count_if (supports c) fs) (count_if is_nonzero fs)
    unfolding compute_confidence
    confidence_lem c fs =
        ground (arith, count_factors_lem (sign_direction c) 0 0 fs, count_if-voter c fs)

    -- By the laws of IEEE 754, the confidence is the share of the nonzero factors that lie on the
    -- same side of zero as the composite score, and 0 if every factor is zero; there are at most
    -- four factors to count.
    pub compute_composite-confidence :
        (i : CompositeInput F)
        → let r = compute_composite i in
          let agreeing = count_if (supports r.composite_score) (factors r) in
          let total = count_if is_nonzero (factors r) in
          (r.confidence ≡ ratio agreeing total) × (agreeing ≤ total) × (total ≤ 4)
    unfolding compute_composite
    compute_composite-confidence i =
        let r = compute_composite i in
        let c = r.composite_score in
        let fs = factors r in
        (
          confidence_lem c fs,
          rw (← count_if-voter c fs) (voters-le (sign_direction c) fs),
          ground arith,
        )
