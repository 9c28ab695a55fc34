-- ===== src/YahooFinance/Quotes/Ranges.antt =====
-- The ranges of FetchPrices.
use quant_indonesia_scraping.Prelude.{
  ◌≡◌, ◌⊎◌, refl, ap, true, false, [], ◌∷◌, Text, codes, text_eq, text_eq→eq, Bool-cases, inl, inr,
  arith,
}
use quant_indonesia_scraping.YahooFinance.Quotes.{effective_range, is_valid_range}

-- The ranges that Yahoo is asked for.
abbrev pub IsRange : Text → Type 0
IsRange t =
    (t ≡ codes "1mo")
    ⊎ ((t ≡ codes "6mo") ⊎ ((t ≡ codes "1y") ⊎ ((t ≡ codes "5y") ⊎ (t ≡ codes "max"))))

pub is_valid_range-IsRange : (t : Text) → is_valid_range t ≡ true → IsRange t
unfolding is_valid_range
is_valid_range-IsRange t h = elim (Bool-cases (text_eq t (codes "1mo"))) [
  | inl e ↦ inl (text_eq→eq t _ e)
  | inr e1 ↦ elim (Bool-cases (text_eq t (codes "6mo"))) [
    | inl e ↦ inr (inl (text_eq→eq t _ e))
    | inr e2 ↦ elim (Bool-cases (text_eq t (codes "1y"))) [
      | inl e ↦ inr (inr (inl (text_eq→eq t _ e)))
      | inr e3 ↦ elim (Bool-cases (text_eq t (codes "5y"))) [
        | inl e ↦ inr (inr (inr (inl (text_eq→eq t _ e))))
        | inr e4 ↦ inr (inr (inr (inr (text_eq→eq t _ (ground (arith, h, e1, e2, e3, e4))))))
      ]
    ]
  ]
]

pub is_valid_range-not : (t : Text) → is_valid_range t ≡ false → ¬ IsRange t
unfolding is_valid_range
is_valid_range-not t h (inl e) = cc (ap is_valid_range e, h)
is_valid_range-not t h (inr (inl e)) = cc (ap is_valid_range e, h)
is_valid_range-not t h (inr (inr (inl e))) = cc (ap is_valid_range e, h)
is_valid_range-not t h (inr (inr (inr (inl e)))) = cc (ap is_valid_range e, h)
is_valid_range-not t h (inr (inr (inr (inr e)))) = cc (ap is_valid_range e, h)

-- The range that is asked for: a year where none is given.
abbrev pub range_or_year : Text → Text
range_or_year [] = codes "1y"
range_or_year (c ∷ t) = c ∷ t

pub effective_range_lem : (t : Text) → effective_range t ≡ range_or_year t
unfolding effective_range
effective_range_lem [] = refl
effective_range_lem (c ∷ t) = refl
