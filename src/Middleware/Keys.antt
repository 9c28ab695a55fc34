-- ===== src/Middleware/Keys.antt =====
-- The keys of the cache tell requests apart.
use quant_indonesia_scraping.Prelude.{
  ℕ, ◌≡◌, ◌++◌, refl, sym, ap, ◌∙◌, false, [], ◌∷◌, Text, codes, drop, arith, ◌==◌,
}
use quant_indonesia_scraping.Middleware.{CacheRequest, build_cache_key}

-- No question mark in it.
abbrev pub IsPath : Text → Type 0
IsPath [] = Unit
IsPath (c ∷ p) = ((c == b'?') ≡ false) × IsPath p

-- What follows the prefix.
abbrev suffix : Text → Text → Text
suffix path [] = path
suffix path (c ∷ q) = path ++ b'?' ∷ c ∷ q

suffix-cons : (d : ℕ) (t q : Text) → suffix (d ∷ t) q ≡ d ∷ suffix t q
suffix-cons d t [] = refl
suffix-cons d t (c ∷ q) = refl

cons-tail : (c d : ℕ) (s t : Text) → ◌≡◌ {A = Text} (c ∷ s) (d ∷ t) → (c ≡ d) × (s ≡ t)
cons-tail c d s t e = (cc, cc)

-- A text that starts with a question mark is no path with a suffix.
no_mark :
    (d : ℕ) (t q r : Text)
    → (d == b'?') ≡ false
    → ◌≡◌ {A = Text} (b'?' ∷ r) (d ∷ suffix t q)
    → (d ≡ b'?')
no_mark d t q r h e = sym (cons-tail b'?' d r (suffix t q) e).0

suffix_injective :
    (p p' q q' : Text) → IsPath p → IsPath p' → suffix p q ≡ suffix p' q' → (p ≡ p') × (q ≡ q')
suffix_injective [] [] [] [] h h' e = (refl, refl)
suffix_injective [] [] [] (c ∷ q') h h' e = cc
suffix_injective [] [] (c ∷ q) [] h h' e = cc
suffix_injective [] [] (c ∷ q) (c' ∷ q') h h' e = (refl, (cons-tail b'?' b'?' _ _ e).1)
suffix_injective [] (d ∷ t) [] q' h (n, h') e = cc (e, suffix-cons d t q')
suffix_injective [] (d ∷ t) (c ∷ q) q' h (n, h') e =
    ground (arith, n, no_mark d t q' (c ∷ q) n (e ∙ suffix-cons d t q'))
suffix_injective (d ∷ t) [] q [] (n, h) h' e = cc (e, suffix-cons d t q)
suffix_injective (d ∷ t) [] q (c ∷ q') (n, h) h' e =
    ground (arith, n, no_mark d t q (c ∷ q') n (sym e ∙ suffix-cons d t q))
suffix_injective (d ∷ t) (d' ∷ t') q q' (n, h) (n', h') e =
    let (heads, tails) =
      cons-tail d d' (suffix t q) (suffix t' q')
        (sym (suffix-cons d t q) ∙ e ∙ suffix-cons d' t' q') in
    let (paths, queries) = suffix_injective t t' q q' h h' tails in (cc (heads, paths), queries)

drop_prefix : (s t : Text) → codes "api:cache:" ++ s ≡ codes "api:cache:" ++ t → s ≡ t
drop_prefix s t e = ap (drop 10) e

append_mark : (s t : Text) → (s ++ codes "?") ++ t ≡ s ++ b'?' ∷ t
append_mark [] t = refl
append_mark (c ∷ s) t = ap (λ (r : Text). c ∷ r) (append_mark s t)

key-suffix : (r : CacheRequest) → build_cache_key r ≡ codes "api:cache:" ++ suffix r.path r.query
unfolding build_cache_key
key-suffix r = go r.query refl
  where
    go : (q : Text) → r.query ≡ q → build_cache_key r ≡ codes "api:cache:" ++ suffix r.path q
    go [] e = rw (e, build_cache_key) refl
    go (c ∷ q) e =
        rw (e, build_cache_key)
          (ap (λ (t : Text). codes "api:cache:" ++ t) (append_mark r.path (c ∷ q)))

-- Two requests whose paths hold no question mark have the same key only if their paths and queries
-- are the same.
pub build_cache_key_injective :
    (r r' : CacheRequest)
    → IsPath r.path
    → IsPath r'.path
    → build_cache_key r ≡ build_cache_key r'
    → (r.path ≡ r'.path) × (r.query ≡ r'.query)
build_cache_key_injective r r' h h' e =
    suffix_injective r.path r'.path r.query r'.query h h'
      (drop_prefix _ _ (sym (key-suffix r) ∙ e ∙ key-suffix r'))
