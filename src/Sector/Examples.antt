-- ===== src/Sector/Examples.antt =====
-- Symbols and tags as the language model may write them.
use quant_indonesia_scraping.Prelude.{◌≡◌, refl, true, some, codes, upper, lower, trim_space}
use quant_indonesia_scraping.Sector.Sectors.{official_idx_map}
use quant_indonesia_scraping.Sector.{
  lookup, holds, canonical, blacklist_map, is_blacklisted, is_financial, normalize_tag,
  normalize_sector,
}

perbankan : normalize_sector (codes "XYZW") (codes " perbankan") ≡ codes "Financial Services"
unfolding normalize_sector canonical normalize_tag is_financial official_idx_map lookup trim_space
    upper lower
perbankan = refl

bbca : lookup (canonical (codes " bbca")) official_idx_map ≡ some (codes "Financial Services")
unfolding lookup canonical official_idx_map trim_space upper
bbca = refl

ihsg : is_blacklisted (codes "ihsg ") ≡ true
unfolding is_blacklisted blacklist_map holds canonical trim_space upper
ihsg = refl
