-- ===== src/TextLaws.antt =====
-- Laws of the string functions of Prelude/Strings.antt.
use quant_indonesia_scraping.Prelude.{
  ℕ, ◌≡◌, refl, Bool, true, false, not, [], ◌∷◌, map, Text, is_space, upper, lower, to_upper,
  to_lower, trim_left, trim_right, trim_right_cons, trim_space, arith,
}

pub upper_idem : (c : ℕ) → upper (upper c) ≡ upper c
unfolding upper
upper_idem c = ground arith

pub to_upper_idem : (s : Text) → to_upper (to_upper s) ≡ to_upper s
to_upper_idem [] = refl
to_upper_idem (c ∷ s) = cc (upper_idem c, to_upper_idem s)

is_space-upper : (c : ℕ) → is_space (upper c) ≡ is_space c
unfolding is_space upper
is_space-upper c = ground arith

is_space-lower : (c : ℕ) → is_space (lower c) ≡ is_space c
unfolding is_space lower
is_space-lower c = ground arith

-- Trimming commutes with any change of letters that keeps white space.
module _ (f : ℕ → ℕ) (keeps : (c : ℕ) → is_space (f c) ≡ is_space c) where
  trim_left-map : (s : Text) → trim_left (map f s) ≡ map f (trim_left s)
  unfolding trim_left
  trim_left-map [] = refl
  trim_left-map (c ∷ s) = ground (arith, keeps c, trim_left-map s)

  trim_right_cons-map :
      (c : ℕ) (s : Text) → trim_right_cons (f c) (map f s) ≡ map f (trim_right_cons c s)
  unfolding trim_right_cons
  trim_right_cons-map c [] = ground (arith, keeps c)
  trim_right_cons-map c (d ∷ s) = refl

  trim_right-map : (s : Text) → trim_right (map f s) ≡ map f (trim_right s)
  unfolding trim_right
  trim_right-map [] = refl
  trim_right-map (c ∷ s) = rw (trim_right-map s) (trim_right_cons-map c (trim_right s))

  trim_space-map : (s : Text) → trim_space (map f s) ≡ map f (trim_space s)
  unfolding trim_space
  trim_space-map s = rw (trim_left-map s) (trim_right-map (trim_left s))

pub trim_space-upper : (s : Text) → trim_space (to_upper s) ≡ to_upper (trim_space s)
trim_space-upper = trim_space-map upper is_space-upper

pub trim_space-lower : (s : Text) → trim_space (to_lower s) ≡ to_lower (trim_space s)
trim_space-lower = trim_space-map lower is_space-lower

trim_right_cons_idem :
    (c : ℕ) (s : Text) → trim_right s ≡ s → trim_right (trim_right_cons c s) ≡ trim_right_cons c s
unfolding trim_right
trim_right_cons_idem c [] h = ground arith
trim_right_cons_idem c (d ∷ s) h = rw h refl

trim_right_idem : (s : Text) → trim_right (trim_right s) ≡ trim_right s
unfolding trim_right
trim_right_idem [] = refl
trim_right_idem (c ∷ s) = trim_right_cons_idem c (trim_right s) (trim_right_idem s)

-- Empty, or the first character is no white space.
abbrev is_solid : Text → Bool
is_solid [] = true
is_solid (c ∷ s) = not (is_space c)

is_solid-trim_left : (s : Text) → is_solid (trim_left s) ≡ true
unfolding trim_left
is_solid-trim_left [] = refl
is_solid-trim_left (c ∷ s) = ground (arith, is_solid-trim_left s)

is_solid-trim_right_cons :
    (c : ℕ) (s : Text) → is_space c ≡ false → is_solid (trim_right_cons c s) ≡ true
unfolding trim_right_cons
is_solid-trim_right_cons c [] h = ground arith
is_solid-trim_right_cons c (d ∷ s) h = ground arith

is_solid-trim_right : (s : Text) → is_solid s ≡ true → is_solid (trim_right s) ≡ true
unfolding trim_right
is_solid-trim_right [] h = refl
is_solid-trim_right (c ∷ s) h = is_solid-trim_right_cons c (trim_right s) (ground arith)

trim_left_solid : (s : Text) → is_solid s ≡ true → trim_left s ≡ s
unfolding trim_left
trim_left_solid [] h = refl
trim_left_solid (c ∷ s) h = ground arith

pub trim_space_idem : (s : Text) → trim_space (trim_space s) ≡ trim_space s
unfolding trim_space
trim_space_idem s =
    let solid = is_solid-trim_right (trim_left s) (is_solid-trim_left s) in
    rw (trim_left_solid (trim_right (trim_left s)) solid) (trim_right_idem (trim_left s))
