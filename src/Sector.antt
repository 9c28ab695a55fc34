-- ===== src/Sector.antt =====
-- pkg/sector/sector.go: the official sectors and names of the listed companies, and the symbols
-- that are no stocks.
mod Sectors
mod Names
pub mod Canonical
pub mod Tables
mod Examples
use quant_indonesia_scraping.Prelude.{
  Bool, true, false, ◌||◌, Option, none, some, List, [], ◌∷◌, Text, String, codes, text_eq,
  is_empty, to_upper, trim_space, equal_fold, if◌then◌else◌,
}
use Sectors.{official_idx_map}
use Names.{official_company_name_map}

-- A Go map with string keys: `v, ok := m[key]`.
pub lookup : Text → List (String × String) → Option Text
lookup key [] = none
lookup key ((k, v) ∷ m) = elim (text_eq (codes k) key) [
  | true ↦ some (codes v)
  | false ↦ lookup key m
]

unfoldable pub holds : Text → List String → Bool
holds key [] = false
holds key (k ∷ m) = elim (text_eq (codes k) key) [ true ↦ true | false ↦ holds key m ]

-- The keys of BlacklistMap, whose values are all `true`.
unfoldable pub blacklist_map : List String
blacklist_map =
    "AMZN" ∷ "INTC" ∷ "GS" ∷ "OJK" ∷ "BEI" ∷ "IDX" ∷ "IHSG" ∷ "KSEI" ∷ "BI" ∷ "PNM" ∷ "TMMIN"
    ∷ "RANS" ∷ "JECX" ∷ "BAIS" ∷ "KAI" ∷ []

-- The local variable `sym`.
unfoldable pub canonical : Text → Text
canonical symbol = to_upper (trim_space symbol)

unfoldable pub is_blacklisted : Text → Bool
is_blacklisted symbol = holds (canonical symbol) blacklist_map

-- The tags that mean the financial sector, in any case.
is_financial : Text → Bool
is_financial tag =
    is_empty tag
    || equal_fold tag (codes "Finansial")
    || equal_fold tag (codes "Financial Services")
    || equal_fold tag (codes "Financial")
    || equal_fold tag (codes "Perbankan")

normalize_tag : Text → Text
normalize_tag tag = if is_financial tag then codes "Financial Services" else tag

pub normalize_sector : Text → Text → Text
normalize_sector symbol tag_sector = elim (lookup (canonical symbol) official_idx_map) [
  | some official ↦ official
  | none ↦ normalize_tag (trim_space tag_sector)
]

pub get_official_company_name : Text → Text → Text
get_official_company_name symbol default_name =
    elim (lookup (canonical symbol) official_company_name_map) [
      | some official ↦ official
      | none ↦ default_name
    ]
