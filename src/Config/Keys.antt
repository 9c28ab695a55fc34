-- ===== src/Config/Keys.antt =====
-- The API keys of config/config.go.
use quant_indonesia_scraping.Prelude.{
  ℕ, ◌≡◌, refl, ap, ◌∙◌, Bool, true, false, List, [], ◌∷◌, ◌++◌, Text, is_empty, trim_space,
  trim_left, trim_right, ◌==◌, All, arith, Bool-cases, inl, inr,
}
use quant_indonesia_scraping.TextLaws.{trim_space_idem}
use quant_indonesia_scraping.Config.{prepend, split, keep_keys, api_keys}

-- A text that can be a key: not empty, and without white space at its ends.
pub record IsKey (k : Text) : Type 0 where
  pub trimmed : trim_space k ≡ k
  pub filled : is_empty k ≡ false

unfoldable pub has_code : ℕ → Text → Bool
has_code c [] = false
has_code c (d ∷ s) = elim (d == c) [ true ↦ true | false ↦ has_code c s ]

-- The keys with a comma between them.
pub join : List Text → Text
join [] = []
join (k ∷ []) = k
join (k ∷ l ∷ ks) = k ++ (b',' ∷ join (l ∷ ks))

keep_keys-IsKey : (ks : List Text) → All IsKey (keep_keys ks)
unfolding keep_keys
keep_keys-IsKey [] = tt
keep_keys-IsKey (k ∷ ks) = elim (Bool-cases (is_empty (trim_space k))) [
  | inl e ↦ rw e (keep_keys-IsKey ks)
  | inr e ↦ simp e (record { trimmed = trim_space_idem k; filled = e }, keep_keys-IsKey ks)
]

api_keys_split : (s : Text) → api_keys s ≡ keep_keys (split b',' s)
unfolding api_keys split keep_keys trim_space
api_keys_split [] = refl
api_keys_split (c ∷ s) = refl

-- Whatever LLM_API_KEY holds, no key is empty or has white space at its ends.
pub api_keys-IsKey : (s : Text) → All IsKey (api_keys s)
api_keys-IsKey s = rw (api_keys_split s) (keep_keys-IsKey (split b',' s))

split_single : (k : Text) → has_code b',' k ≡ false → split b',' k ≡ k ∷ []
unfolding split prepend has_code
split_single [] h = refl
split_single (c ∷ k) h = ground (arith, split_single k)

split_front :
    (k s : Text) → has_code b',' k ≡ false → split b',' (k ++ (b',' ∷ s)) ≡ k ∷ split b',' s
unfolding split prepend has_code
split_front [] s h = refl
split_front (c ∷ k) s h = ground (arith, split_front k s)

keep_keys-key : (k : Text) (ks : List Text) → IsKey k → keep_keys (k ∷ ks) ≡ k ∷ keep_keys ks
unfolding keep_keys
keep_keys-key k ks h = rw h.trimmed (rw h.filled refl)

keep_keys-join :
    (ks : List Text)
    → All IsKey ks
    → All (λ k. has_code b',' k ≡ false) ks
    → keep_keys (split b',' (join ks)) ≡ ks
unfolding join split keep_keys trim_space trim_left trim_right
keep_keys-join [] h n = refl
keep_keys-join (k ∷ []) h n = rw (split_single k n.0) (keep_keys-key k [] h.0)
keep_keys-join (k ∷ l ∷ ks) h n = rw (split_front k (join (l ∷ ks)) n.0) (
    keep_keys-key k (split b',' (join (l ∷ ks))) h.0
    ∙ ap (λ t. k ∷ t) (keep_keys-join (l ∷ ks) h.1 n.1))

-- A list of keys without commas in them, joined by commas, is read back as it is.
pub api_keys-join :
    (ks : List Text)
    → All IsKey ks
    → All (λ k. has_code b',' k ≡ false) ks
    → api_keys (join ks) ≡ ks
api_keys-join ks h n = api_keys_split (join ks) ∙ keep_keys-join ks h n
