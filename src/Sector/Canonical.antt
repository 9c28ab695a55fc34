-- ===== src/Sector/Canonical.antt =====
-- pkg/sector looks at a symbol only up to white space at its ends and the case of its letters.
use quant_indonesia_scraping.Prelude.{
  ◌≡◌, refl, true, false, Text, codes, trim_space, lower, arith, Bool-cases, inl, inr,
}
use quant_indonesia_scraping.TextLaws.{to_upper_idem, trim_space-upper, trim_space_idem}
use quant_indonesia_scraping.Sector.{
  canonical, is_blacklisted, is_financial, normalize_tag, normalize_sector,
  get_official_company_name,
}

abbrev financial_services : Text
financial_services = codes "Financial Services"

pub canonical_idem : (s : Text) → canonical (canonical s) ≡ canonical s
unfolding canonical
canonical_idem s = rw (trim_space-upper, trim_space_idem, to_upper_idem) refl

-- The blacklist, the sector and the company name depend on the symbol without the white space at its
-- ends and in upper case.
pub sector-canonical :
    (s tag name : Text)
    → (is_blacklisted (canonical s) ≡ is_blacklisted s)
      × (normalize_sector (canonical s) tag ≡ normalize_sector s tag)
      × (get_official_company_name (canonical s) name ≡ get_official_company_name s name)
unfolding is_blacklisted normalize_sector get_official_company_name
sector-canonical s tag name = (
  ground (arith, canonical_idem s),
  ground (arith, canonical_idem s),
  ground (arith, canonical_idem s),
)

normalize_tag_financial :
    (tag : Text) → is_financial tag ≡ true → normalize_tag tag ≡ financial_services
unfolding normalize_tag
normalize_tag_financial tag h = rw h

normalize_tag_other : (tag : Text) → is_financial tag ≡ false → normalize_tag tag ≡ tag
unfolding normalize_tag
normalize_tag_other tag h = rw h

-- The name of the financial sector stands for itself.
normalize_tag_fixed : normalize_tag (trim_space financial_services) ≡ financial_services
unfolding normalize_tag is_financial trim_space lower
normalize_tag_fixed = refl

normalize_tag_trimmed :
    (tag : Text)
    → normalize_tag (trim_space (normalize_tag (trim_space tag))) ≡ normalize_tag (trim_space tag)
normalize_tag_trimmed tag = elim (Bool-cases (is_financial (trim_space tag))) [
  | inl e ↦ rw (normalize_tag_financial (trim_space tag) e) normalize_tag_fixed
  | inr e ↦
      rw (normalize_tag_other (trim_space tag) e, trim_space_idem)
        (normalize_tag_other (trim_space tag) e)
]

-- Normalizing a sector again, for the same symbol, changes nothing.
pub normalize_sector_idem :
    (s tag : Text) → normalize_sector s (normalize_sector s tag) ≡ normalize_sector s tag
unfolding normalize_sector
normalize_sector_idem s tag = ground (arith, normalize_tag_trimmed tag)
