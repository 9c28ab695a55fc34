-- ===== src/Gemini/Models.antt =====
-- The lists of models that the analyzer tries.
use quant_indonesia_scraping.Prelude.{
  ◌+◌, ◌≡◌, refl, Bool, true, false, List, [], ◌∷◌, Text, text_eq, text_eq_refl, text_eq→eq, arith,
  Bool-cases, inl, inr, is_empty, length,
}
use quant_indonesia_scraping.Gemini.{
  GeminiAnalyzer, others, new_gemini_analyzer, get_models_to_try, fallback_models,
}

unfoldable pub listed : Text → List Text → Bool
listed m [] = false
listed m (n ∷ ns) = elim (text_eq n m) [ true ↦ true | false ↦ listed m ns ]

-- No model stands twice.
abbrev pub distinct : List Text → Bool
distinct [] = true
distinct (m ∷ ms) = elim (listed m ms) [ true ↦ false | false ↦ distinct ms ]

listed-others_self : (m : Text) (ms : List Text) → listed m (others m ms) ≡ false
unfolding listed others
listed-others_self m [] = refl
listed-others_self m (n ∷ ns) = ground (arith, listed-others_self m ns)

listed-others :
    (n m : Text) (ms : List Text) → text_eq m n ≡ false → listed n (others m ms) ≡ listed n ms
unfolding listed others
listed-others n m [] h = refl
listed-others n m (k ∷ ks) h =
    ground (arith, listed-others n m ks h, text_eq→eq k m, text_eq→eq k n)

distinct-others : (m : Text) (ms : List Text) → distinct ms ≡ true → distinct (others m ms) ≡ true
unfolding others
distinct-others m [] h = refl
distinct-others m (n ∷ ns) h = elim (Bool-cases (text_eq n m)) [
  | inl e ↦ rw e (distinct-others m ns (ground (arith, h)))
  | inr e ↦
      ground (arith, distinct-others m ns, listed-others n m ns, text_eq→eq m n, text_eq_refl m)
]

length-others_absent :
    (m : Text) (ms : List Text) → listed m ms ≡ false → length (others m ms) ≡ length ms
unfolding listed others
length-others_absent m [] h = refl
length-others_absent m (n ∷ ns) h = ground (arith, length-others_absent m ns)

others_absent : (m : Text) (ms : List Text) → listed m ms ≡ false → others m ms ≡ ms
unfolding listed others
others_absent m [] h = refl
others_absent m (n ∷ ns) h = ground (arith, others_absent m ns)

length-others :
    (m : Text) (ms : List Text)
    → distinct ms ≡ true
    → listed m ms ≡ true
    → length (others m ms) + 1 ≡ length ms
unfolding listed others
length-others m [] d h = cc
length-others m (n ∷ ns) d h =
    ground (arith, length-others m ns, length-others_absent m ns, text_eq→eq n m, text_eq_refl m)

-- A model in front of the others of a list.
in_front :
    (m : Text) (ms : List Text)
    → distinct ms ≡ true
    → (distinct (m ∷ others m ms) ≡ true)
      × (listed m (m ∷ others m ms) ≡ true)
      × ((n : Text) → listed n ms ≡ true → listed n (m ∷ others m ms) ≡ true)
unfolding listed
in_front m ms d = (
  rw (listed-others_self m ms, distinct) (distinct-others m ms d),
  rw (text_eq_refl m, listed) refl,
  λ n h. ground (arith, listed-others n m ms, h),
)

-- If no model stands twice and the active one is among them, the list to try holds the analyzer's
-- models, each once, with the active model in front.
pub get_models_to_try_lem :
    (g : GeminiAnalyzer)
    → distinct g.models ≡ true
    → listed g.active_model g.models ≡ true
    → let ms = get_models_to_try g in
      (distinct ms ≡ true)
      × (length ms ≡ length g.models)
      × ((m : Text) → listed m ms ≡ listed m g.models)
      × ((rest : List Text) × (ms ≡ g.active_model ∷ rest))
unfolding get_models_to_try listed
get_models_to_try_lem g d h = (
  (in_front g.active_model g.models d).0,
  omega (arith, length-others g.active_model g.models d h),
  λ m. ground (arith, listed-others m g.active_model g.models, text_eq→eq g.active_model m, h),
  (others g.active_model g.models, refl),
)

-- A new analyzer has its primary model, which is active, and each of the fallback models, none
-- twice.
pub new_gemini_analyzer_lem :
    (keys : List Text) (model : Text)
    → let g = new_gemini_analyzer keys model in
      (distinct g.models ≡ true)
      × (listed g.active_model g.models ≡ true)
      × ((m : Text) → listed m fallback_models ≡ true → listed m g.models ≡ true)
      × (is_empty model ≡ false → g.active_model ≡ model)
unfolding new_gemini_analyzer listed
new_gemini_analyzer_lem keys model =
    let primary = (new_gemini_analyzer keys model).primary_model in
    let (once, active, all) = in_front primary fallback_models refl in
    (once, active, all, λ h. rw h refl)
