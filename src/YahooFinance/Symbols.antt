-- ===== src/YahooFinance/Symbols.antt =====
-- The ticker that FetchPrices and FetchProfile ask for, and the symbol that a price is stored with.
use mathlib.Core.Path.{subst}
use quant_indonesia_scraping.Prelude.{
  ℕ, ◌+◌, ◌-◌, ◌≡◌, refl, ap, sym, true, false, not, ◌&&◌, [], ◌∷◌, ◌++◌, Text, codes, text_eq,
  text_eq→eq, text_eq_refl, has_prefix, has_suffix, trim_prefix, trim_suffix, trim_space, to_upper,
  length, take, length-append, if◌then◌else◌, Bool-cases, inl, inr, arith,
}

-- The symbol as it is asked for: indices and full tickers as they are, others on the Jakarta
-- exchange.
unfoldable pub with_exchange : Text → Text
with_exchange ticker =
    if not (has_prefix ticker (codes "^")) && not (has_suffix ticker (codes ".JK"))
    then ticker ++ codes ".JK"
    else ticker

unfoldable pub ticker_of : Text → Text
unfolding with_exchange
ticker_of symbol = with_exchange (trim_space (to_upper symbol))

unfoldable pub clean_symbol : Text → Text
clean_symbol ticker =
    if has_suffix ticker (codes ".JK")
    then trim_suffix ticker (codes ".JK")
    else if has_prefix ticker (codes "^")
    then (if text_eq ticker (codes "^JKSE") then codes "IHSG" else trim_prefix ticker (codes "^"))
    else ticker

take-length : (s t : Text) → take (length s) (s ++ t) ≡ s
take-length [] t = refl
take-length (c ∷ s) t = ap (λ r. c ∷ r) (take-length s t)

has_suffix-append : (s p : Text) → has_suffix (s ++ p) p ≡ true
has_suffix-append [] [] = refl
has_suffix-append [] (c ∷ p) = ground (arith, text_eq_refl (c ∷ p))
has_suffix-append (c ∷ s) p = ground (arith, has_suffix-append s p)

take-append : (s p : Text) → take (length (s ++ p) - length p) (s ++ p) ≡ s
take-append s p = rw (length-append s p) (rw (sub_length (length s) (length p)) (take-length s p))
  where
    sub_length : (n m : ℕ) → n + m - m ≡ n
    sub_length n m = omega arith

later_suffix :
    (c : ℕ) (s p : Text)
    → has_suffix (c ∷ s) p ≡ true
    → text_eq (c ∷ s) p ≡ false
    → has_suffix s p ≡ true
later_suffix c s p h e = ground (arith, h, e)

-- A text with the suffix is some text in front of it.
suffix_front : (s p : Text) → has_suffix s p ≡ true → (q : Text) × (q ++ p ≡ s)
suffix_front [] [] h = ([], refl)
suffix_front [] (c ∷ p) h = cc
suffix_front (c ∷ s) p h = elim (Bool-cases (text_eq (c ∷ s) p)) [
  | inl e ↦ ([], sym (text_eq→eq (c ∷ s) p e))
  | inr e ↦ let (q, eq) = suffix_front s p (later_suffix c s p h e) in (c ∷ q, ap (λ r. c ∷ r) eq)
]

suffix_split : (s p : Text) → has_suffix s p ≡ true → take (length s - length p) s ++ p ≡ s
suffix_split s p h =
    let (q, e) = suffix_front s p h in
    subst (λ (r : Text). take (length r - length p) r ++ p ≡ r) e (rw (take-append q p) refl)

module _ (t : Text) (plain : has_prefix t (codes "^") ≡ false) where
  clean_symbol-bare : has_suffix t (codes ".JK") ≡ false → clean_symbol (with_exchange t) ≡ t
  unfolding clean_symbol with_exchange
  clean_symbol-bare h =
      rw (plain, h) (rw (has_suffix-append t (codes ".JK")) (take-append t (codes ".JK")))

  clean_symbol-suffix : clean_symbol (with_exchange t) ++ codes ".JK" ≡ with_exchange t
  unfolding clean_symbol with_exchange
  clean_symbol-suffix = elim (Bool-cases (has_suffix t (codes ".JK"))) [
    | inl e ↦ rw (plain, e) (rw e (suffix_split t (codes ".JK") e))
    | inr e ↦ rw (clean_symbol-bare e) (rw (plain, e) refl)
  ]

-- The symbol that prices are stored with, followed by the exchange, is the ticker asked for, unless
-- it is an index; without the exchange in it, it is the symbol given, trimmed and in upper case.
pub clean_symbol-ticker_of :
    (symbol : Text)
    → has_prefix (trim_space (to_upper symbol)) (codes "^") ≡ false
    → (clean_symbol (ticker_of symbol) ++ codes ".JK" ≡ ticker_of symbol)
      × (has_suffix (trim_space (to_upper symbol)) (codes ".JK") ≡ false
          → clean_symbol (ticker_of symbol) ≡ trim_space (to_upper symbol))
unfolding ticker_of
clean_symbol-ticker_of symbol plain =
    let t = trim_space (to_upper symbol) in (clean_symbol-suffix t plain, clean_symbol-bare t plain)
