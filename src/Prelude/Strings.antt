-- ===== src/Prelude/Strings.antt =====
-- Go's strings, as lists of code points, and what the program uses of package strings.
-- Upper and lower case are those of the ASCII letters; other letters are left as they are, which
-- the program's tickers, column names and URLs do not hold. White space is that of package unicode.
use Prim.Native.Nat.{◌/◌, ◌%◌, zero, suc, ℕ, ◌+◌, ◌-◌}
use Prim.Native.Char.{code}
use Prim.Native.String.{String}
use mathlib.Core.Path.{◌≡◌, refl}
use mathlib.Core.Bool.{Bool, true, false, ◌&&◌, ◌||◌}
use mathlib.Core.List.{List, [], ◌∷◌, map}
use native.Mathlib.Omega.{arith}
use quant_indonesia_scraping.Prelude.Lists.{length, take, drop}
use quant_indonesia_scraping.Prelude.Tests.{ltb, leb, ◌==◌, if◌then◌else◌}

abbrev pub Text : Type 0
Text = List ℕ

-- A literal.
abbrev pub codes : String → Text
codes String.[] = []
codes (String.◌∷◌ c s) = code c ∷ codes s

abbrev pub text_eq : Text → Text → Bool
text_eq [] [] = true
text_eq [] (d ∷ t) = false
text_eq (c ∷ s) [] = false
text_eq (c ∷ s) (d ∷ t) = elim (c == d) [ true ↦ text_eq s t | false ↦ false ]

pub text_eq_refl : (s : Text) → text_eq s s ≡ true
text_eq_refl [] = refl
text_eq_refl (c ∷ s) = ground (arith, text_eq_refl s)

pub text_eq→eq : (s t : Text) → text_eq s t ≡ true → s ≡ t
text_eq→eq [] [] h = refl
text_eq→eq [] (d ∷ t) h = cc
text_eq→eq (c ∷ s) [] h = cc
text_eq→eq (c ∷ s) (d ∷ t) h = ground (arith, text_eq→eq s t)

abbrev pub is_empty : Text → Bool
is_empty [] = true
is_empty (c ∷ s) = false

-- unicode.IsSpace
unfoldable pub is_space : ℕ → Bool
is_space c =
    (leb 9 c && leb c 13)
    || c == 0x20
    || c == 0x85
    || c == 0xa0
    || c == 0x1680
    || (leb 0x2000 c && leb c 0x200a)
    || c == 0x2028
    || c == 0x2029
    || c == 0x202f
    || c == 0x205f
    || c == 0x3000

unfoldable pub upper : ℕ → ℕ
upper c = if leb b'a' c && leb c b'z' then c - 32 else c

unfoldable pub lower : ℕ → ℕ
lower c = if leb b'A' c && leb c b'Z' then c + 32 else c

-- strings.ToUpper, strings.ToLower
abbrev pub to_upper : Text → Text
to_upper s = map upper s

abbrev pub to_lower : Text → Text
to_lower s = map lower s

-- strings.EqualFold
abbrev pub equal_fold : Text → Text → Bool
equal_fold s t = text_eq (to_lower s) (to_lower t)

unfoldable pub trim_left : Text → Text
unfolding is_space
trim_left [] = []
trim_left (c ∷ s) = elim (is_space c) [ true ↦ trim_left s | false ↦ c ∷ s ]

-- `c` in front of a text without white space at its end.
unfoldable pub trim_right_cons : ℕ → Text → Text
unfolding is_space
trim_right_cons c [] = if is_space c then [] else c ∷ []
trim_right_cons c (d ∷ t) = c ∷ d ∷ t

unfoldable pub trim_right : Text → Text
unfolding trim_right_cons
trim_right [] = []
trim_right (c ∷ s) = trim_right_cons c (trim_right s)

-- strings.TrimSpace
unfoldable pub trim_space : Text → Text
unfolding trim_left trim_right
trim_space s = trim_right (trim_left s)

-- strings.HasPrefix, strings.HasSuffix
abbrev pub has_prefix : Text → Text → Bool
has_prefix s [] = true
has_prefix [] (d ∷ p) = false
has_prefix (c ∷ s) (d ∷ p) = elim (c == d) [ true ↦ has_prefix s p | false ↦ false ]

-- strings.HasSuffix
abbrev pub has_suffix : Text → Text → Bool
has_suffix [] p = is_empty p
has_suffix (c ∷ s) p = elim (text_eq (c ∷ s) p) [ true ↦ true | false ↦ has_suffix s p ]

-- strings.TrimPrefix, strings.TrimSuffix
abbrev pub trim_prefix : Text → Text → Text
trim_prefix s p = if has_prefix s p then drop (length p) s else s

abbrev pub trim_suffix : Text → Text → Text
trim_suffix s p = if has_suffix s p then take (length s - length p) s else s

-- strings.Contains
abbrev pub contains : Text → Text → Bool
contains [] p = is_empty p
contains (c ∷ s) p = elim (has_prefix (c ∷ s) p) [ true ↦ true | false ↦ contains s p ]

-- The decimal digits of a number in front of a text, if it has at most `fuel` digits.
unfoldable pub decimal_digits : ℕ → ℕ → Text → Text
decimal_digits zero n acc = acc
decimal_digits (suc fuel) n acc =
    let rest = decimal_digits fuel (n / 10) ((b'0' + n % 10) ∷ acc) in
    if ltb n 10 then (b'0' + n) ∷ acc else rest

-- A natural number of Go's int, which has at most 19 digits, under the verb %d.
abbrev pub itoa : ℕ → Text
itoa n = decimal_digits 20 n []
