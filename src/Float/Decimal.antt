-- ===== src/Float/Decimal.antt =====
-- A concrete float64 for the tests: decimals with four places, rounded towards zero, and NaN.
use quant_indonesia_scraping.Prelude.{
  ℕ, zero, suc, ◌+◌, ◌-◌, ◌*◌, ◌/◌, ◌^◌, ◌≤◌, ◌≡◌, Bool, true, false, ◌&&◌, ℤ, pos, negsuc,
  pos_part, neg_part, sub_ℕ, ltb_ℤ, leb_ℤ, ◌≤ℤ◌, arith, if◌then◌else◌,
}
use quant_indonesia_scraping.Float.{Float64, IsIeee, IsNumber, ◌≼◌, ◌≺◌}

pub data Decimal : Type 0 where
  num : ℤ → Decimal
  nan : Decimal

abbrev scale : ℕ
scale = 10_000

-- `m * a / b`, rounded towards zero.
abbrev scaled : ℤ → ℕ → ℕ → ℤ
scaled m a b = sub_ℕ (pos_part m * a / b) (neg_part m * a / b)

abbrev lift2 : (ℤ → ℤ → Decimal) → Decimal → Decimal → Decimal
lift2 f (num a) (num b) = f a b
lift2 f _ _ = nan

abbrev test2 : (ℤ → ℤ → Bool) → Decimal → Decimal → Bool
test2 f (num a) (num b) = f a b
test2 f _ _ = false

abbrev plus : ℤ → ℤ → ℤ
plus a b = sub_ℕ (pos_part a + pos_part b) (neg_part a + neg_part b)

abbrev minus : ℤ → ℤ → ℤ
minus a b = sub_ℕ (pos_part a + neg_part b) (neg_part a + pos_part b)

-- The quotient by a number, with the sign of the divisor moved to the dividend.
abbrev divide : ℤ → ℤ → Decimal
divide a (pos zero) = nan
divide a (pos (suc n)) = num (scaled a scale (suc n))
divide a (negsuc n) = num (scaled (minus (pos 0) a) scale (suc n))

abbrev times : ℤ → ℤ → ℤ
times a (pos n) = scaled a n scale
times a (negsuc n) = scaled (minus (pos 0) a) (suc n) scale

-- The binary logarithm in whole steps, enough for a test.
abbrev log2_whole : ℤ → Decimal
log2_whole a = if leb_ℤ (pos 20_000) a then num (pos scale) else num (negsuc (scale - 1))

instance abbrev pub decimal : Float64 Decimal
decimal = record {
  lit = λ m e. num (scaled m scale (10 ^ e));
  of_nat = λ n. num (pos (n * scale));
  add = lift2 (λ a b. num (plus a b));
  sub = lift2 (λ a b. num (minus a b));
  mul = lift2 (λ a b. num (times a b));
  div = lift2 divide;
  neg = λ a. lift2 (λ a b. num (minus a b)) (num (pos 0)) a;
  abs = λ a. elim a [ nan ↦ nan | num n ↦ num (pos (pos_part n + neg_part n)) ];
  log2 = λ a. elim a [ nan ↦ nan | num n ↦ log2_whole n ];
  lt = test2 ltb_ℤ;
  le = test2 leb_ℤ;
  eq = test2 (λ a b. leb_ℤ a b && leb_ℤ b a);
}

div_mono : (a b k : ℕ) → a ≤ b → a / k ≤ b / k
div_mono a b k h = grind arith

scaled_mono : (m n : ℤ) (k b : ℕ) → m ≤ℤ n → scaled m k b ≤ℤ scaled n k b
scaled_mono (pos m) (pos n) k b h = ground (arith, div_mono (m * k) (n * k) b (grind arith))
scaled_mono (pos m) (negsuc n) k b h = absurd (omega arith)
scaled_mono (negsuc m) (pos n) k b h = ground arith
scaled_mono (negsuc m) (negsuc n) k b h =
    ground (arith, div_mono (suc n * k) (suc m * k) b (grind arith))

le_by-IsNumber : (a b : Decimal) → a ≼ b → IsNumber a × IsNumber b
le_by-IsNumber (num a) (num b) h = ground arith
le_by-IsNumber (num a) nan h = cc
le_by-IsNumber nan b h = cc

le_chain : (a b c : Decimal) → a ≼ b → b ≼ c → a ≼ c
le_chain (num a) (num b) (num c) h k = ground arith
le_chain (num a) (num b) nan h k = cc
le_chain (num a) nan c h k = cc
le_chain nan b c h k = cc

lt_weaken : (a b : Decimal) → a ≺ b → a ≼ b
lt_weaken (num a) (num b) h = ground arith
lt_weaken (num a) nan h = cc
lt_weaken nan b h = cc

lt_exclude : (a b : Decimal) → a ≺ b → decimal.le b a ≡ false
lt_exclude (num a) (num b) h = ground arith
lt_exclude (num a) nan h = cc
lt_exclude nan b h = cc

lt_total : (a b : Decimal) → IsNumber a → IsNumber b → decimal.lt a b ≡ false → b ≼ a
lt_total (num a) (num b) ha hb h = ground arith
lt_total (num a) nan ha hb h = cc
lt_total nan b ha hb h = cc

scaled_strict :
    (m n : ℤ) (e : ℕ)
    → e ≤ 4
    → ltb_ℤ m n ≡ true
    → ltb_ℤ (scaled m scale (10 ^ e)) (scaled n scale (10 ^ e)) ≡ true
scaled_strict m n zero h lt = ground arith
scaled_strict m n (suc zero) h lt = ground arith
scaled_strict m n (suc (suc zero)) h lt = ground arith
scaled_strict m n (suc (suc (suc zero))) h lt = ground arith
scaled_strict m n (suc (suc (suc (suc zero)))) h lt = ground arith
scaled_strict m n (suc (suc (suc (suc (suc e))))) h lt = absurd (omega arith)

pub decimal-IsIeee : IsIeee Decimal
decimal-IsIeee = record {
  lt→le = lt_weaken;
  lt→not-le = lt_exclude;
  not-lt→le = lt_total;
  le_number = le_by-IsNumber;
  le_trans = le_chain;
  lit_mono = λ m n e h. ground (arith, scaled_mono m n scale (10 ^ e));
  lit_strict = λ m n e few hm hn h. scaled_strict m n e few h;
}
