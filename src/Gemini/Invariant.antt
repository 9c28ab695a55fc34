-- ===== src/Gemini/Invariant.antt =====
-- What stays true of the analyzer and of the calls while an article is analyzed.
use quant_indonesia_scraping.Prelude.{
  ℕ, zero, suc, ◌<◌, ◌≡◌, ◌⊎◌, refl, sym, ap, ◌∙◌, Bool, true, Option, none, some, List, [], ◌∷◌,
  Text, text_eq_refl, text_eq→eq, arith, Bool-cases, inl, inr, length, All, ltb, get_elem?,
}
use quant_indonesia_scraping.Gemini.{
  GeminiAnalyzer, Exchange, Called, text, err, Call, Progress, Ended, Tried, ended, next_model,
  make_call, rotate, try_model, try_models, analyze_text, rotate_api_key, set_active_model,
  get_active_api_key, get_models_to_try, new_gemini_analyzer, is_rate_limit_error,
  is_model_not_found_error, is_none_configured,
}
use quant_indonesia_scraping.Gemini.Models.{
  listed, distinct, get_models_to_try_lem, new_gemini_analyzer_lem,
}

pub Called-cases : (c : Called) → ((t : Text) × (c ≡ text t)) ⊎ ((e : Text) × (c ≡ err e))
Called-cases (text t) = inl (t, refl)
Called-cases (err e) = inr (e, refl)

abbrev pub Leads : (Progress → Type 0) → Tried → Type 0
Leads P (ended e p) = P p
Leads P (next_model last p) = P p

pub Tried-cases :
    (t : Tried)
    → ((e : Ended) × (p : Progress) × (t ≡ ended e p))
      ⊎ ((last : Option Text) × (p : Progress) × (t ≡ next_model last p))
Tried-cases (ended e p) = inl (e, p, refl)
Tried-cases (next_model last p) = inr (last, p, refl)

-- The active key is one of the keys, if there are keys; the active model is one of the models, none
-- of which stands twice.
pub record IsValid (g : GeminiAnalyzer) : Type 0 where
  pub key : 0 < length g.api_keys → g.active_key_idx < length g.api_keys
  pub active : listed g.active_model g.models ≡ true
  pub once : distinct g.models ≡ true

-- A call of one of the models with one of the keys.
abbrev pub IsAllowed : GeminiAnalyzer → Call → Type 0
IsAllowed g c = (listed c.model g.models ≡ true) × (c.key < length g.api_keys)

-- The keys and models are those of `g`, and every call was allowed.
pub record IsRunning (g : GeminiAnalyzer) (p : Progress) : Type 0 where
  pub keys : p.analyzer.api_keys ≡ g.api_keys
  pub models : p.analyzer.models ≡ g.models
  pub key : p.analyzer.active_key_idx < length g.api_keys
  pub active : listed p.analyzer.active_model g.models ≡ true
  pub calls : All (IsAllowed g) p.calls

rotate_api_key-lt :
    (n : ℕ) (g : GeminiAnalyzer)
    → length g.api_keys ≡ n
    → g.active_key_idx < n
    → (rotate_api_key g).active_key_idx < n
unfolding rotate_api_key
rotate_api_key-lt n g e h = ground arith

get_elem?-exists : (ts : List Text) (i : ℕ) → i < length ts → (t : Text) × (get_elem? ts i ≡ some t)
get_elem?-exists [] i h = absurd (omega arith)
get_elem?-exists (t ∷ ts) zero h = (t, refl)
get_elem?-exists (t ∷ ts) (suc i) h = get_elem?-exists ts i (omega arith)

active_key_of :
    (keys : List Text) (g : GeminiAnalyzer)
    → g.api_keys ≡ keys
    → 0 < length keys
    → g.active_key_idx < length keys
    → (k : Text) × (get_active_api_key g ≡ some k)
unfolding get_active_api_key
active_key_of [] g e h i = absurd (omega arith)
active_key_of (k ∷ ks) g e h i =
    let (t, f) = get_elem?-exists (k ∷ ks) g.active_key_idx i in (t, rw e f)

rotate_api_key-same :
    (g : GeminiAnalyzer)
    → ((rotate_api_key g).api_keys ≡ g.api_keys)
      × ((rotate_api_key g).models ≡ g.models)
      × ((rotate_api_key g).active_model ≡ g.active_model)
unfolding rotate_api_key
rotate_api_key-same g = ground arith

pub set_active_model-same :
    (m : Text) (g : GeminiAnalyzer)
    → ((set_active_model m g).api_keys ≡ g.api_keys)
      × ((set_active_model m g).models ≡ g.models)
      × ((set_active_model m g).active_key_idx ≡ g.active_key_idx)
      × ((set_active_model m g).active_model ≡ m)
unfolding set_active_model
set_active_model-same m g = ground (arith, text_eq→eq g.active_model m)

module _ (api : ℕ → Call → Exchange) (ctx_done : ℕ → Bool) where
  -- A predicate that the calls of listed models, the rotations and the switches keep.
  pub record IsKept (ms : List Text) (P : Progress → Type 0) : Type 0 where
    pub calls :
        (m : Text) (p : Progress) → listed m ms ≡ true → P p → P (make_call api ctx_done m p).1
    pub rotates : (p : Progress) → P p → P (rotate api ctx_done p)
    pub switches :
        (m : Text) (p : Progress)
        → listed m ms ≡ true
        → P p
        → P (record p { analyzer = set_active_model m p.analyzer })

  pub try_model-keeps :
      {ms : List Text} {P : Progress → Type 0} (left : ℕ) (m : Text) (last : Option Text)
      (p : Progress)
      → IsKept ms P
      → listed m ms ≡ true
      → P p
      → Leads P (try_model api ctx_done left m last p)
  unfolding try_model
  try_model-keeps zero m last p k l h = h
  try_model-keeps (suc left) m last p k l h =
      let made = k.calls m p l h in
      let p' = (make_call api ctx_done m p).1 in
      elim (Called-cases (make_call api ctx_done m p).0) [
        | inl (t, f) ↦ rw (f, try_model) (k.switches m p' l made)
        | inr (e, f) ↦
            let rotated =
              try_model-keeps left m (some e) (rotate api ctx_done p') k l (k.rotates p' made) in
            let again = try_model-keeps left m (some e) p' k l made in
            rw (f, try_model)
              (elim (Bool-cases (is_rate_limit_error e)) [
                | inl a ↦ rw a (elim (Bool-cases (ltb 1 (length p'.analyzer.api_keys))) [
                  | inl b ↦ rw b rotated
                  | inr b ↦ rw b (elim (Bool-cases (ctx_done (length p'.calls))) [
                    | inl c ↦ rw c made
                    | inr c ↦ rw c again
                  ])
                ])
                | inr a ↦ rw a (elim (Bool-cases (is_model_not_found_error e)) [
                  | inl b ↦ rw b made
                  | inr b ↦ rw b made
                ])
              ])
      ]

  pub try_models-keeps :
      {all : List Text} {P : Progress → Type 0} (ms : List Text) (last : Option Text) (p : Progress)
      → IsKept all P
      → ((m : Text) → listed m ms ≡ true → listed m all ≡ true)
      → P p
      → P (try_models api ctx_done ms last p).1
  unfolding try_models listed
  try_models-keeps [] last p k l h = h
  try_models-keeps (m ∷ ms) last p k l h =
      let here = try_model-keeps 3 m last p k (l m (rw (text_eq_refl m, listed) refl)) h in
      elim (Tried-cases (try_model api ctx_done 3 m last p)) [
        | inl (e, p', f) ↦ rw (f, try_models) (rw f at here)
        | inr (last', p', f) ↦
            rw (f, try_models)
              (try_models-keeps ms last' p' k (λ n i. l n (ground (arith, i))) (rw f at here))
      ]

  analyze_text-keeps :
      {P : Progress → Type 0} (g : GeminiAnalyzer)
      → IsKept (get_models_to_try g) P
      → P (record { analyzer = g; calls = [] })
      → P (analyze_text api ctx_done g).1
  unfolding analyze_text
  analyze_text-keeps {P} g k h = elim (Bool-cases (is_none_configured g.api_keys)) [
    | inl e ↦ rw (e, analyze_text) h
    | inr e ↦
        rw (e, analyze_text)
          (try_models-keeps (get_models_to_try g) none (record { analyzer = g; calls = [] }) k
            (λ m i. i) h)
  ]

  IsRunning-IsKept :
      (g : GeminiAnalyzer) (ms : List Text)
      → ((m : Text) → listed m ms ≡ true → listed m g.models ≡ true)
      → IsKept ms (IsRunning g)
  unfolding make_call
  IsRunning-IsKept g ms within = record {
    calls = λ m p l h. record {
      keys = h.keys;
      models = h.models;
      key = h.key;
      active = h.active;
      calls = ((within m l, h.key), h.calls);
    };
    rotates = λ p h.
        let (k, n, a) = rotate_api_key-same p.analyzer in
        record {
          keys = k ∙ h.keys;
          models = n ∙ h.models;
          key = rotate_api_key-lt (length g.api_keys) p.analyzer (ap length h.keys) h.key;
          active = rw a h.active;
          calls = h.calls;
        };
    switches = λ m p l h.
        let (k, n, i, a) = set_active_model-same m p.analyzer in
        record {
          keys = k ∙ h.keys;
          models = n ∙ h.models;
          key = rw i h.key;
          active = rw a (within m l);
          calls = h.calls;
        };
  }

  -- Analyze keeps a valid analyzer that has a key valid, with its keys and its models, and calls
  -- only its models, with a key that exists; the active key exists after it as well.
  pub analyze_text-IsValid :
      (g : GeminiAnalyzer)
      → IsValid g
      → 0 < length g.api_keys
      → let p = (analyze_text api ctx_done g).1 in
        IsRunning g p × IsValid p.analyzer × ((k : Text) × (get_active_api_key p.analyzer ≡ some k))
  analyze_text-IsValid g v h =
      let (once, len, same, front) = get_models_to_try_lem g v.once v.active in
      let r =
        analyze_text-keeps g (IsRunning-IsKept g (get_models_to_try g) (λ m l. sym (same m) ∙ l))
          (record { keys = refl; models = refl; key = v.key h; active = v.active; calls = tt }) in
      (
        r,
        record {
          key = λ k. rw r.keys r.key;
          active = rw r.models r.active;
          once = rw r.models v.once;
        },
        active_key_of g.api_keys (analyze_text api ctx_done g).1.analyzer r.keys h r.key,
      )

-- A new analyzer is valid.
pub new_gemini_analyzer-IsValid :
    (keys : List Text) (model : Text) → IsValid (new_gemini_analyzer keys model)
unfolding new_gemini_analyzer
new_gemini_analyzer-IsValid keys model =
    let (once, active, all, named) = new_gemini_analyzer_lem keys model in
    record { key = λ h. h; active = active; once = once }
