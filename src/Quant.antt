-- ===== src/Quant.antt =====
-- pkg/quant/scoring.go: the composite score of a stock. The proofs are in the modules below.
pub mod Bounds
pub mod Signals
pub mod Confidence
mod Examples
use quant_indonesia_scraping.Prelude.{
  ℕ, ◌+◌, Bool, true, false, not, ◌&&◌, ◌||◌, Option, none, some, List, [], ◌∷◌, pos, negsuc, ◌==◌,
  if◌then◌else◌, is_nil,
}
use quant_indonesia_scraping.Float.{Float64, exceeds}
use quant_indonesia_scraping.Domain.{SignalType, buy, sell, hold}

pub record CompositeInput (F : Type 0) : Type 0 where
  pub sentiment_score : F
  pub rsi14 : Option F
  pub price_vs_ma20 : Option F
  pub price_vs_ma50 : Option F
  pub macd_hist : Option F
  pub tech_signal : Option SignalType  -- `none` is the empty string
  pub price_change_pct : F
  pub volume_ratio : Option F
  pub net_foreign_flow : Option F

pub record CompositeResult (F : Type 0) : Type 0 where
  pub composite_score : F
  pub sentiment_factor : F
  pub technical_factor : F
  pub momentum_factor : F
  pub flow_factor : F
  pub signal : SignalType
  pub confidence : F

-- The local variables `score` and `count` of the factors.
pub record Tally (F : Type 0) : Type 0 where
  pub score : F
  pub count : F

module _ {F : Type 0} ⦃d : Float64 F⦄ where
  open d use {lit, of_nat, add, sub, mul, div, neg, abs, log2, lt, le, eq}

  abbrev pub zero_f : F
  zero_f = lit (pos 0) 0

  abbrev pub one_f : F
  one_f = lit (pos 1) 0

  abbrev pub minus_one : F
  minus_one = lit (negsuc 0) 0

  -- `v > max` is `max < v`.
  pub clamp : F → F → F → F
  clamp v min max = if lt v min then min else if lt max v then max else v

  -- `score += s; count++`
  abbrev tally : F → Tally F → Tally F
  tally s t = record { score = add t.score s; count = add t.count one_f }

  -- The same under `if p != nil`, with `*p` turned into a score.
  abbrev tally_if : Option F → (F → F) → Tally F → Tally F
  tally_if none f t = t
  tally_if (some v) f t = tally (f v) t

  -- `if count == 0 { return 0 }; return clamp(score/count, -1.0, 1.0)`
  average : Tally F → F
  unfolding clamp
  average t = if eq t.count zero_f then zero_f else clamp (div t.score t.count) minus_one one_f

  -- `(50.0 - *input.RSI14) / 50.0`
  rsi_score : F → F
  rsi_score r = div (sub (lit (pos 500) 1) r) (lit (pos 500) 1)

  -- `clamp((*p-1.0)*weight, -1.0, 1.0)`
  ma_score : F → F → F
  ma_score weight p = clamp (mul (sub p one_f) weight) minus_one one_f

  -- `clamp(v/5.0, -1.0, 1.0)`
  fifth_score : F → F
  fifth_score v = clamp (div v (lit (pos 50) 1)) minus_one one_f

  pub compute_technical_factor : CompositeInput F → F
  compute_technical_factor i =
      let t0 : Tally F = record { score = zero_f; count = zero_f } in
      let t1 = tally_if i.rsi14 rsi_score t0 in
      let t2 = tally_if i.price_vs_ma20 (ma_score (lit (pos 10) 0)) t1 in
      let t3 = tally_if i.price_vs_ma50 (ma_score (lit (pos 8) 0)) t2 in
      let t4 = tally_if i.macd_hist fifth_score t3 in
      if is_nil i.tech_signal && is_nil i.rsi14 then zero_f else average t4

  -- `math.Log2(ratio)`, and `-math.Abs` of it after a fall of the price.
  vol_signal : F → F → F
  vol_signal change ratio = let v = log2 ratio in if lt change zero_f then neg (abs v) else v

  tally_volume : F → Option F → Tally F → Tally F
  unfolding vol_signal
  tally_volume change none t = t
  tally_volume change (some ratio) t =
      if lt zero_f ratio then tally (clamp (vol_signal change ratio) minus_one one_f) t else t

  pub compute_momentum_factor : CompositeInput F → F
  compute_momentum_factor i =
      let t0 : Tally F = record { score = zero_f; count = zero_f } in
      let t1 =
        if eq i.price_change_pct zero_f then t0 else tally (fifth_score i.price_change_pct) t0 in
      average (tally_volume i.price_change_pct i.volume_ratio t1)

  pub compute_flow_factor : CompositeInput F → F
  compute_flow_factor i = elim i.net_foreign_flow [
    | none ↦ zero_f
    | some flow ↦ clamp (div flow (lit (pos 100_000_000_000) 0)) minus_one one_f
  ]

  -- `composite` and `sentiment` are the fields of `result` that the function reads.
  pub determine_signal : F → F → Option F → SignalType
  determine_signal composite sentiment rsi =
      if le (lit (pos 25) 2) composite
      then (if exceeds rsi (lit (pos 75) 0) then hold else buy)
      else if le composite (lit (negsuc 24) 2)
      then sell
      else if exceeds rsi (lit (pos 80) 0) && lt sentiment zero_f
      then sell
      else hold

  sign_direction : F → F
  sign_direction composite =
      if lt zero_f composite then one_f else if lt composite zero_f then minus_one else zero_f

  abbrev pub agrees : F → F → Bool
  agrees direction f = (lt zero_f f && lt zero_f direction) || (lt f zero_f && lt direction zero_f)

  -- The loop over the factors, with `agreeing` and `total`.
  count_factors : F → ℕ → ℕ → List F → ℕ × ℕ
  count_factors direction agreeing total [] = (agreeing, total)
  count_factors direction agreeing total (f ∷ fs) =
      count_factors direction
        (if not (eq f zero_f) && agrees direction f then agreeing + 1 else agreeing)
        (if eq f zero_f then total else total + 1) fs

  pub compute_confidence : F → List F → F
  unfolding sign_direction count_factors
  compute_confidence composite factors =
      let (agreeing, total) = count_factors (sign_direction composite) 0 0 factors in
      if total == 0 then zero_f else div (of_nat agreeing) (of_nat total)

  pub compute_composite : CompositeInput F → CompositeResult F
  compute_composite i =
      let s = clamp i.sentiment_score minus_one one_f in
      let t = compute_technical_factor i in
      let m = compute_momentum_factor i in
      let f = compute_flow_factor i in
      let weighted =
        add (add (add (mul (lit (pos 40) 2) s) (mul (lit (pos 30) 2) t)) (mul (lit (pos 15) 2) m))
          (mul (lit (pos 15) 2) f) in
      let composite = clamp weighted minus_one one_f in
      record {
        composite_score = composite;
        sentiment_factor = s;
        technical_factor = t;
        momentum_factor = m;
        flow_factor = f;
        signal = determine_signal composite s i.rsi14;
        confidence = compute_confidence composite (s ∷ t ∷ m ∷ f ∷ []);
      }
