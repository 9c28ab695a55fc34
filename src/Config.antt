-- ===== src/Config.antt =====
-- config/config.go: the environment variables and the API keys. The environment is a parameter.
pub mod Keys
mod Examples
use quant_indonesia_scraping.Prelude.{
  ℕ, suc, ◌+◌, ◌-◌, ◌*◌, ◌^◌, Bool, true, false, Option, none, some, List, [], ◌∷◌, Text, codes,
  is_empty, trim_space, ◌==◌, ltb, leb, ◌&&◌, if◌then◌else◌, ℤ, pos, negsuc,
}

-- `lookup` is os.LookupEnv.
pub get_env : (Text → Option Text) → Text → Text → Text
get_env lookup key default_val = elim (lookup key) [ none ↦ default_val | some val ↦ val ]

is_digit : ℕ → Bool
is_digit c = leb b'0' c && leb c b'9'

-- The value of decimal digits, behind the digits of `n`.
digits_value : ℕ → Text → Option ℕ
unfolding is_digit
digits_value n [] = some n
digits_value n (c ∷ s) = elim (is_digit c) [
  | true ↦ digits_value (10 * n + (c - b'0')) s
  | false ↦ none
]

-- strconv.Atoi of an int of 64 bits: `none` is its error.
positive_int : Text → Option ℤ
unfolding digits_value
positive_int [] = none
positive_int (c ∷ s) = elim (digits_value 0 (c ∷ s)) [
  | none ↦ none
  | some n ↦ if ltb n (2 ^ 63) then some (pos n) else none
]

negative_int : Text → Option ℤ
unfolding digits_value
negative_int [] = none
negative_int (c ∷ s) = elim (digits_value 0 (c ∷ s)) [
  | none ↦ none
  | some n ↦ if n == 0 then some (pos 0) else if leb n (2 ^ 63) then some (negsuc (n - 1)) else none
]

unfoldable pub atoi : Text → Option ℤ
unfolding positive_int negative_int
atoi [] = none
atoi (c ∷ s) =
    if c == b'-' then negative_int s else if c == b'+' then positive_int s else positive_int (c ∷ s)

pub get_env_int : (Text → Option Text) → Text → ℤ → ℤ
unfolding atoi
get_env_int lookup key default_val = elim (lookup key) [
  | none ↦ default_val
  | some val ↦ elim (atoi val) [ none ↦ default_val | some i ↦ i ]
]

-- The first part of a split text gets one more character in front.
prepend : ℕ → List Text → List Text
prepend c [] = (c ∷ []) ∷ []
prepend c (p ∷ ps) = (c ∷ p) ∷ ps

-- strings.Split with a separator of one character.
pub split : ℕ → Text → List Text
unfolding prepend
split sep [] = [] ∷ []
split sep (c ∷ s) = let rest = split sep s in if c == sep then [] ∷ rest else prepend c rest

-- The loop over the raw keys.
keep_keys : List Text → List Text
keep_keys [] = []
keep_keys (k ∷ ks) =
    let rest = keep_keys ks in if is_empty (trim_space k) then rest else trim_space k ∷ rest

pub api_keys : Text → List Text
unfolding split keep_keys
api_keys [] = []
api_keys (c ∷ s) = keep_keys (split b',' (c ∷ s))
