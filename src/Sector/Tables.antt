-- ===== src/Sector/Tables.antt =====
-- The three tables of pkg/sector agree.
use quant_indonesia_scraping.Prelude.{
  ◌≡◌, refl, Bool, true, false, not, ◌&&◌, none, some, List, [], ◌∷◌, Text, String, codes,
  text_eq→eq, is_some, arith, inl, inr, Option-cases,
}
use quant_indonesia_scraping.Sector.Sectors.{official_idx_map}
use quant_indonesia_scraping.Sector.Names.{official_company_name_map}
use quant_indonesia_scraping.Sector.{
  lookup, holds, blacklist_map, canonical, is_blacklisted, normalize_sector,
}

-- Every entry of a table passes a test.
every : (Text → Text → Bool) → List (String × String) → Bool
every p [] = true
every p ((k, v) ∷ m) = p (codes k) (codes v) && every p m

every-lookup :
    (p : Text → Text → Bool) (m : List (String × String)) (key : Text) {v : Text}
    → every p m ≡ true
    → lookup key m ≡ some v
    → p key v ≡ true
unfolding every lookup
every-lookup p [] key h e = cc
every-lookup p ((k, v) ∷ m) key {v = w} h e =
    ground (arith, text_eq→eq (codes k) key, every-lookup p m key {v = w})

-- The sectors of the Indonesian stock exchange that the table names.
pub idx_sectors : List String
idx_sectors =
    "Energy" ∷ "Basic Materials" ∷ "Financial Services" ∷ "Consumer Goods" ∷ "Consumer Cyclicals"
    ∷ "Infrastructure" ∷ "Technology" ∷ "Healthcare" ∷ "Real Estate" ∷ "Industrials" ∷ []

-- An entry of OfficialIDXMap has an official sector and a company name, and is no blacklisted
-- symbol.
idx_entry_ok : Text → Text → Bool
idx_entry_ok k v =
    holds v idx_sectors
    && is_some (lookup k official_company_name_map)
    && not (holds k blacklist_map)

idx_table : every idx_entry_ok official_idx_map ≡ true
unfolding every idx_entry_ok official_idx_map official_company_name_map blacklist_map idx_sectors
    holds lookup
idx_table = refl

has_sector : Text → Text → Bool
has_sector k v = is_some (lookup k official_idx_map)

name_table : every has_sector official_company_name_map ≡ true
unfolding every has_sector official_idx_map official_company_name_map lookup
name_table = refl

-- A symbol with an official sector gets it whatever the tag says; it is one of the ten sectors of
-- the exchange, the symbol has an official company name too, and it is not blacklisted.
pub official_complete :
    (s tag : Text) {v : Text}
    → lookup (canonical s) official_idx_map ≡ some v
    → (normalize_sector s tag ≡ v)
      × (holds v idx_sectors ≡ true)
      × (is_some (lookup (canonical s) official_company_name_map) ≡ true)
      × (is_blacklisted s ≡ false)
unfolding normalize_sector is_blacklisted idx_entry_ok
official_complete s tag e =
    ground (arith, every-lookup idx_entry_ok official_idx_map (canonical s) idx_table e)

unlisted_sector :
    (s : Text) → is_blacklisted s ≡ true → lookup (canonical s) official_idx_map ≡ none
unlisted_sector s h = elim (Option-cases (lookup (canonical s) official_idx_map)) [
  | inl e ↦ e
  | inr (v, e) ↦ cc (h, (official_complete s [] e).3)
]

unlisted_name :
    (s : Text)
    → lookup (canonical s) official_idx_map ≡ none
    → lookup (canonical s) official_company_name_map ≡ none
unfolding has_sector
unlisted_name s h = elim (Option-cases (lookup (canonical s) official_company_name_map)) [
  | inl e ↦ e
  | inr (v, e) ↦
      ground (arith, every-lookup has_sector official_company_name_map (canonical s) name_table e)
]

-- A blacklisted symbol has no official company name and no official sector.
pub is_blacklisted-unlisted :
    (s : Text)
    → is_blacklisted s ≡ true
    → (lookup (canonical s) official_idx_map ≡ none)
      × (lookup (canonical s) official_company_name_map ≡ none)
is_blacklisted-unlisted s h =
    let no_sector = unlisted_sector s h in (no_sector, unlisted_name s no_sector)
