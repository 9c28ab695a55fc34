-- ===== src/Gemini/Matching.antt =====
-- The error texts that the analyzer recognises.

use quant_indonesia_scraping.Prelude.{
  decimal_digits, ℕ, ◌≡◌, ◌↔◌, refl, ap, true, some, List, [], ◌∷◌, ◌++◌, Text, codes, lower,
  to_lower, ◌==◌, arith, Bool-cases, inl, inr,
}
use quant_indonesia_scraping.Gemini.{
  matches_here, contains_str, is_rate_limit_error, is_model_not_found_error, GeminiResponse,
  response, err, call_model, llm_failed,
}

-- A text equal to the pattern up to the case of letters stands somewhere in `s`.
abbrev pub Occurs : Text → Text → Type 0
Occurs s p =
    (before : Text) × (found : Text) × (after : Text) × (s ≡ before ++ (found ++ after))
    × (to_lower found ≡ to_lower p)

matches_here-found :
    (s p : Text)
    → matches_here s p ≡ true
    → (found : Text) × (after : Text) × (s ≡ found ++ after) × (to_lower found ≡ to_lower p)
unfolding matches_here
matches_here-found s [] h = ([], s, refl, refl)
matches_here-found [] (d ∷ p) h = cc
matches_here-found (c ∷ s) (d ∷ p) h = elim (Bool-cases (lower c == lower d)) [
  | inl e ↦
      let (found, after, same, f) = matches_here-found s p (rw (e, matches_here) at h) in
      (c ∷ found, after, ap (λ t. c ∷ t) same, ground (arith, f))
  | inr e ↦ absurd (ground (arith, e))
]

matches_here-intro :
    (found after p : Text) → to_lower found ≡ to_lower p → matches_here (found ++ after) p ≡ true
unfolding matches_here
matches_here-intro [] after [] h = refl
matches_here-intro [] after (d ∷ p) h = cc
matches_here-intro (c ∷ found) after [] h = cc
matches_here-intro (c ∷ found) after (d ∷ p) h = ground (arith, matches_here-intro found after p)

contains_str-found : (s p : Text) → contains_str s p ≡ true → Occurs s p
unfolding contains_str matches_here
contains_str-found [] [] h = ([], [], [], refl, refl)
contains_str-found [] (d ∷ p) h = cc
contains_str-found (c ∷ s) p h = elim (Bool-cases (matches_here (c ∷ s) p)) [
  | inl e ↦
      let (found, after, same, f) = matches_here-found (c ∷ s) p e in ([], found, after, same, f)
  | inr e ↦
      let (before, found, after, same, f) = contains_str-found s p (rw (e, contains_str) at h) in
      (c ∷ before, found, after, ap (λ t. c ∷ t) same, f)
]

contains_str-here : (s p : Text) → matches_here s p ≡ true → contains_str s p ≡ true
unfolding contains_str matches_here
contains_str-here [] [] h = refl
contains_str-here [] (d ∷ p) h = cc
contains_str-here (c ∷ s) p h = rw (h, contains_str) refl

contains_str-intro :
    (before found after p : Text)
    → to_lower found ≡ to_lower p
    → contains_str (before ++ (found ++ after)) p ≡ true
unfolding contains_str
contains_str-intro [] found after p h =
    contains_str-here (found ++ after) p (matches_here-intro found after p h)
contains_str-intro (c ∷ before) found after p h =
    ground (arith, contains_str-intro before found after p h)

-- containsStr finds the pattern exactly where a part of the text equals it up to the case of
-- letters.
pub contains_str-Occurs : (s p : Text) → (contains_str s p ≡ true) ↔ Occurs s p
contains_str-Occurs s p = (contains_str-found s p, back)
  where
    back : Occurs s p → contains_str s p ≡ true
    back (before, found, after, same, f) = rw same (contains_str-intro before found after p f)

-- An answer of the API with the error code 429 is a rate limit, and one with the code 404 a missing
-- model, whatever the message says.
pub call_model-codes :
    (message : Text) (cs : List (List Text))
    → let answer : ℕ → GeminiResponse =
        λ code. record { candidates = cs; error = some (code, message) } in
      ((e : Text) × (call_model (response (answer 429)) ≡ err e) × (is_rate_limit_error e ≡ true))
      × ((e : Text) × (call_model (response (answer 404)) ≡ err e)
          × (is_model_not_found_error e ≡ true))
unfolding call_model decimal_digits is_rate_limit_error is_model_not_found_error
call_model-codes message cs =
    let lead = llm_failed ++ codes "gemini API " in
    let tail = codes ": " ++ message in
    (
      (
        _,
        refl,
        rw (contains_str-intro lead (codes "error 429") tail (codes "error 429") refl) refl,
      ),
      (
        _,
        refl,
        rw (contains_str-intro lead (codes "error 404") tail (codes "error 404") refl) refl,
      ),
    )
