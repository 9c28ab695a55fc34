-- ===== src/Float.antt =====
-- The float64 of Go, as an interface: the type, the constants, the operations and comparisons that
-- the program uses, and the laws of IEEE 754 that the theorems rest on, as a record of hypotheses.
pub mod Decimal
use quant_indonesia_scraping.Prelude.{
  ℕ, ◌+◌, ◌≤◌, ◌<◌, ◌^◌, ◌≡◌, Bool, true, false, Option, none, some, ℤ, pos_part, neg_part, ◌≤ℤ◌,
  ltb_ℤ,
}

pub record Float64 (F : Type 0) : Type 0 where
  pub lit : ℤ → ℕ → F  -- `lit m e` is the float64 nearest to m / 10 ^ e
  pub of_nat : ℕ → F  -- float64(n)
  pub add : F → F → F
  pub sub : F → F → F
  pub mul : F → F → F
  pub div : F → F → F
  pub neg : F → F
  pub abs : F → F
  pub log2 : F → F
  pub lt : F → F → Bool
  pub le : F → F → Bool
  pub eq : F → F → Bool

module _ {F : Type 0} ⦃d : Float64 F⦄ where
  open d use {lt, le, lit}

  infix 50 ◌≼◌ ◌≺◌
  abbrev pub ◌≼◌ : F → F → Type 0
  a ≼ b = le a b ≡ true

  abbrev pub ◌≺◌ : F → F → Type 0
  a ≺ b = lt a b ≡ true

  -- Every float but NaN is at most itself.
  abbrev pub IsNumber : F → Type 0
  IsNumber a = le a a ≡ true

  -- `p != nil && *p > bound`
  abbrev pub exceeds : Option F → F → Bool
  exceeds none bound = false
  exceeds (some v) bound = lt bound v

  -- `p != nil && *p < bound`
  abbrev pub below : Option F → F → Bool
  below none bound = false
  below (some v) bound = lt v bound

-- A whole number of at most fifteen digits: a float64 keeps decimals of that length apart.
abbrev pub IsShort : ℤ → Type 0
IsShort m = pos_part m + neg_part m < 10 ^ 15

-- Comparisons of IEEE 754: NaN compares with nothing, the others are ordered; a constant is no NaN,
-- rounding keeps the order of constants, and different constants with few digits and at most
-- four places stay apart.
pub record IsIeee (F : Type 0) ⦃d : Float64 F⦄ : Type 0 where
  pub lt→le : (a b : F) → a ≺ b → a ≼ b
  pub lt→not-le : (a b : F) → a ≺ b → d.le b a ≡ false
  pub not-lt→le : (a b : F) → IsNumber a → IsNumber b → d.lt a b ≡ false → b ≼ a
  pub le_number : (a b : F) → a ≼ b → IsNumber a × IsNumber b
  pub le_trans : (a b c : F) → a ≼ b → b ≼ c → a ≼ c
  pub lit_mono : (m n : ℤ) (e : ℕ) → m ≤ℤ n → d.lit m e ≼ d.lit n e
  pub lit_strict :
      (m n : ℤ) (e : ℕ) → e ≤ 4 → IsShort m → IsShort n → ltb_ℤ m n ≡ true → d.lit m e ≺ d.lit n e
