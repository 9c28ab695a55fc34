-- ===== src/Postgres/Stocks.antt =====
-- StockRepo.Upsert: the INSERT ... ON CONFLICT DO UPDATE on the table of stocks, which has one row for
-- a symbol. A sector that is NULL counts as empty.
use quant_indonesia_scraping.Prelude.{
  ◌≡◌, ◌≢◌, refl, sym, ap, ◌∙◌, Bool, true, false, not, ◌&&◌, Option, none, some, List, [], ◌∷◌,
  Text, codes, is_empty, text_eq, text_eq→eq, text_eq_refl, if◌then◌else◌, Bool-cases, inl, inr,
}
use quant_indonesia_scraping.Domain.{Stock}

-- A sector that the update may take over: not empty, and not one of the two for finance.
unfoldable pub is_specific : Text → Bool
is_specific sector =
    not (is_empty sector)
    && not (text_eq sector (codes "Finansial"))
    && not (text_eq sector (codes "Financial Services"))

unfoldable pub merge_sector : Text → Text → Text
merge_sector old new = if is_specific new then new else if not (is_empty old) then old else new

unfoldable pub merge_stock : Stock → Stock → Stock
unfolding merge_sector
merge_stock old new = record {
  symbol = old.symbol;
  company_name = if not (is_empty new.company_name) then new.company_name else old.company_name;
  sector = merge_sector old.sector new.sector;
}

unfoldable pub upsert_stock : Stock → List Stock → List Stock
unfolding merge_stock
upsert_stock s [] = s ∷ []
upsert_stock s (t ∷ ts) =
    let rest = upsert_stock s ts in
    if text_eq t.symbol s.symbol then merge_stock t s ∷ ts else t ∷ rest

-- GetBySymbol on the table.
unfoldable pub find_stock : Text → List Stock → Option Stock
find_stock symbol [] = none
find_stock symbol (t ∷ ts) =
    let rest = find_stock symbol ts in if text_eq t.symbol symbol then some t else rest

-- The row after an upsert, from the row before.
abbrev pub merged : Option Stock → Stock → Stock
merged none s = s
merged (some t) s = merge_stock t s

merge_stock-symbol : (t s : Stock) → (merge_stock t s).symbol ≡ t.symbol
unfolding merge_stock
merge_stock-symbol t s = refl

find_stock-own :
    (s : Stock) (ts : List Stock)
    → find_stock s.symbol (upsert_stock s ts) ≡ some (merged (find_stock s.symbol ts) s)
unfolding find_stock upsert_stock
find_stock-own s [] = rw (text_eq_refl s.symbol, find_stock) refl
find_stock-own s (t ∷ ts) = elim (Bool-cases (text_eq t.symbol s.symbol)) [
  | inl e ↦ rw (e, upsert_stock, find_stock) (rw e refl)
  | inr e ↦ rw (e, upsert_stock, find_stock) (rw e (find_stock-own s ts))
]

-- The symbols of the two are different.
find_stock-other :
    (s : Stock) (symbol : Text) (ts : List Stock)
    → symbol ≢ s.symbol
    → find_stock symbol (upsert_stock s ts) ≡ find_stock symbol ts
unfolding find_stock upsert_stock
find_stock-other s symbol [] h = elim (Bool-cases (text_eq s.symbol symbol)) [
  | inl e ↦ absurd (h (sym (text_eq→eq s.symbol symbol e)))
  | inr e ↦ rw (e, find_stock) refl
]
find_stock-other s symbol (t ∷ ts) h = elim (Bool-cases (text_eq t.symbol s.symbol)) [
  | inl e ↦
      rw (e, upsert_stock, find_stock)
        (elim (Bool-cases (text_eq t.symbol symbol)) [
          | inl e' ↦
              absurd (h (sym (text_eq→eq t.symbol symbol e') ∙ text_eq→eq t.symbol s.symbol e))
          | inr e' ↦ rw e' refl
        ])
  | inr e ↦ rw (e, upsert_stock, find_stock) (rw (find_stock-other s symbol ts h) refl)
]

is_specific_filled : (t : Text) → is_specific t ≡ true → is_empty t ≡ false
unfolding is_specific
is_specific_filled [] h = cc
is_specific_filled (c ∷ s) h = refl

merge_sector_keeps :
    (old new : Text)
    → (is_empty old ≡ false → is_empty (merge_sector old new) ≡ false)
      × (is_specific new ≡ true → merge_sector old new ≡ new)
      × (is_specific new ≡ false → is_empty old ≡ false → merge_sector old new ≡ old)
unfolding merge_sector
merge_sector_keeps old new = elim (Bool-cases (is_specific new)) [
  | inl e ↦ rw (e, merge_sector) ((λ h. is_specific_filled new e), (λ h. refl), λ h k. cc)
  | inr e ↦ rw (e, merge_sector) ((λ h. rw h h), (λ h. cc), λ h k. rw k refl)
]

merge_name_keeps :
    (old new : Text)
    → is_empty old ≡ false
    → is_empty (if not (is_empty new) then new else old) ≡ false
merge_name_keeps old [] h = h
merge_name_keeps old (c ∷ s) h = refl

-- An upsert changes the row of its symbol alone: a new stock is stored as it is. Of a known one a
-- specific sector replaces the old one, any other is taken only where none was known; an empty name
-- keeps the old one, so that neither a known name nor a known sector gets lost.
pub upsert_stock-merges :
    (s : Stock) (ts : List Stock)
    → (find_stock s.symbol (upsert_stock s ts) ≡ some (merged (find_stock s.symbol ts) s))
      × ((symbol : Text)
          → symbol ≢ s.symbol
          → find_stock symbol (upsert_stock s ts) ≡ find_stock symbol ts)
      × ((t : Stock)
          → find_stock s.symbol ts ≡ some t
          → (t' : Stock) × (find_stock s.symbol (upsert_stock s ts) ≡ some t')
            × (t'.symbol ≡ t.symbol)
            × (is_empty t.company_name ≡ false → is_empty t'.company_name ≡ false)
            × (is_empty t.sector ≡ false → is_empty t'.sector ≡ false)
            × (is_specific s.sector ≡ true → t'.sector ≡ s.sector)
            × (is_specific s.sector ≡ false → is_empty t.sector ≡ false → t'.sector ≡ t.sector))
unfolding merge_stock
upsert_stock-merges s ts = (
  find_stock-own s ts,
  (λ symbol h. find_stock-other s symbol ts h),
  λ t e.
      let (filled, specific, other) = merge_sector_keeps t.sector s.sector in
      (
        merge_stock t s,
        find_stock-own s ts ∙ ap (λ o. some (merged o s)) e,
        refl,
        merge_name_keeps t.company_name s.company_name,
        filled,
        specific,
        other,
      ),
)
