-- ===== src/SignalUsecase/Enrich.antt =====
-- What enrichWithTechnicals makes of a signal.
use mathlib.Core.List.{reverse, reverse_aux}
use quant_indonesia_scraping.Prelude.{
  suc, ◌+◌, ◌≤◌, ◌≡◌, ◌↔◌, ◌⊎◌, refl, ap, ◌∙◌, true, Option, none, some, List, [], ◌∷◌, map, pos,
  length, ltb, is_some, arith, inl, inr, Option-cases, Bool-cases,
}
use quant_indonesia_scraping.Float.{Float64, IsIeee, ◌≼◌, exceeds}
use quant_indonesia_scraping.Domain.{StockSignal, StockPrice, buy}
use quant_indonesia_scraping.Quant.Bounds.{InUnit, compute_composite-InUnit}
use quant_indonesia_scraping.Quant.Signals.{compute_composite-buy}
use quant_indonesia_scraping.Technical.{TechnicalResult, analyze}
use quant_indonesia_scraping.Technical.Warmup.{analyze_warmup, analyze-none}
use quant_indonesia_scraping.SignalUsecase.{
  composite_input, with_sentiment, with_technicals, close_prices, enrich_with_technicals,
}

length-reverse_aux {ℓ} :
    {A : Type ℓ} (xs ys : List A) → length (reverse_aux xs ys) ≡ length xs + length ys
length-reverse_aux [] ys = omega arith
length-reverse_aux (x ∷ xs) ys = omega (arith, length-reverse_aux xs (x ∷ ys))

length-reverse {ℓ} : {A : Type ℓ} (xs : List A) → length (reverse xs) ≡ length xs
length-reverse xs = omega (arith, length-reverse_aux xs [])

length-map {ℓ κ} :
    {A : Type ℓ} {B : Type κ} (f : A → B) (xs : List A) → length (map f xs) ≡ length xs
length-map f [] = refl
length-map f (x ∷ xs) = ap suc (length-map f xs)

module _ {F : Type 0} ⦃d : Float64 F⦄ where
  length-close_prices :
      (prices : List (StockPrice F)) → length (close_prices prices) ≡ length prices
  unfolding close_prices
  length-close_prices prices = length-reverse _ ∙ length-map _ prices

  -- There are enough prices.
  abbrev pub IsPriced : Option (List (StockPrice F)) → Type 0
  IsPriced prices = (ps : List (StockPrice F)) × (prices ≡ some ps) × (15 ≤ length ps)

  -- Without 15 prices a signal gets its sentiment as composite score and keeps the rest. With 15
  -- prices, the indicators of the close prices are there, RSI14 among them, and are filled in.
  pub enrich_lem :
      (prices : Option (List (StockPrice F))) (s : StockSignal F)
      → (¬ IsPriced prices
          × (enrich_with_technicals prices s ≡ record s { composite_score = s.average_score }))
        ⊎ ((ps : List (StockPrice F)) × (prices ≡ some ps)
            × (15 ≤ length ps)
            × ((tech : TechnicalResult F) × (analyze (close_prices ps) ≡ some tech)
                × (is_some tech.rsi14 ≡ true)
                × (enrich_with_technicals prices s ≡ with_technicals tech s)))
  unfolding enrich_with_technicals with_sentiment
  enrich_lem none s = inl (λ p. cc, refl)
  enrich_lem (some ps) s = elim (Bool-cases (ltb (length ps) 15)) [
    | inl e ↦ rw (e, enrich_with_technicals) (inl (λ p. ground arith, refl))
    | inr e ↦
        let enough : 15 ≤ length ps = ground arith in
        let same = length-close_prices ps in
        elim (Option-cases (analyze (close_prices ps))) [
          | inl none_at ↦ absurd (omega (arith, same, (analyze-none (close_prices ps)).0 none_at))
          | inr (tech, f) ↦
              rw (e, f, enrich_with_technicals)
                (inr (ps, refl, enough, (tech, f, warm tech f (omega (arith, same)), refl)))
        ]
  ]
    where
      warm :
          (tech : TechnicalResult F)
          → analyze (close_prices ps) ≡ some tech
          → 15 ≤ length (close_prices ps)
          → is_some tech.rsi14 ≡ true
      warm tech f h = ground (arith, (analyze_warmup (close_prices ps) f).2)

  -- By the laws of IEEE 754, a signal with 15 prices is a BUY exactly if its composite score is at
  -- least 0.25 and its RSI is not above 75; the score is NaN or between -1 and 1.
  pub enrich_buy :
      (ieee : IsIeee F) (prices : List (StockPrice F)) (s : StockSignal F)
      → 15 ≤ length prices
      → let e = enrich_with_technicals (some prices) s in
        ((e.signal ≡ buy) ↔ (
          (d.lit (pos 25) 2 ≼ e.composite_score) × ¬ (exceeds e.rsi14 (d.lit (pos 75) 0) ≡ true)))
        × InUnit e.composite_score
        × (is_some e.rsi14 ≡ true)
  unfolding with_technicals composite_input
  enrich_buy ieee prices s h = elim (enrich_lem (some prices) s) [
    | inl (few, e) ↦ absurd (few (prices, refl, h))
    | inr (ps, same, enough, (tech, f, warm, e)) ↦ rw e (
      compute_composite-buy (composite_input s.average_score tech),
      (compute_composite-InUnit ieee (composite_input s.average_score tech)).4,
      warm,
    )
  ]
