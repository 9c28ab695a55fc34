-- ===== src/Gemini/Ends.antt =====
-- What the end of an analysis says of the calls that were made.
use quant_indonesia_scraping.Prelude.{
  ℕ, zero, suc, ◌<◌, ◌≡◌, ◌⊎◌, ◌∙◌, refl, Bool, true, false, Option, none, some, List, [], ◌∷◌,
  Text, text_eq, text_eq_refl, text_eq→eq, arith, Bool-cases, inl, inr, length, ltb,
}
use quant_indonesia_scraping.Gemini.{
  GeminiAnalyzer, Exchange, text, err, Call, Progress, Ended, succeeded, aborted, cancelled,
  exhausted, not_configured, Tried, ended, next_model, make_call, rotate, try_model, try_models,
  analyze_text, get_models_to_try, is_rate_limit_error, is_model_not_found_error, call_model,
  is_none_configured,
}
use quant_indonesia_scraping.Gemini.Models.{listed, get_models_to_try_lem}
use quant_indonesia_scraping.Gemini.Invariant.{
  Called-cases, Tried-cases, Leads, IsValid, IsKept, try_model-keeps, set_active_model-same,
}

-- The model was called.
pub was_called : Text → List Call → Bool
was_called m [] = false
was_called m (c ∷ cs) = elim (text_eq c.model m) [ true ↦ true | false ↦ was_called m cs ]

covers_next :
    (n m : Text) (ms : List Text) (before after : List Call)
    → was_called m after ≡ true
    → (was_called n before ≡ true → was_called n after ≡ true)
    → (listed n (m ∷ ms) ≡ true) ⊎ (was_called n before ≡ true)
    → (listed n ms ≡ true) ⊎ (was_called n after ≡ true)
unfolding listed
covers_next n m ms before after here keeps (inr c) = inr (keeps c)
covers_next n m ms before after here keeps (inl l) = elim (Bool-cases (text_eq m n)) [
  | inl e ↦ inr (rw (text_eq→eq m n e) at here)
  | inr e ↦ inl (rw (e, listed) at l)
]

module _ (api : ℕ → Call → Exchange) (ctx_done : ℕ → Bool) where
  -- A success is the answer to the last call, whose model is active from then on; where all the
  -- models are used up, each one of `ms` was called.
  abbrev pub Justified : List Text → Ended → Progress → Type 0
  Justified ms (succeeded t) p =
      (c : Call) × (cs : List Call) × (p.calls ≡ c ∷ cs)
      × (call_model (api (length cs) c) ≡ text t)
      × (p.analyzer.active_model ≡ c.model)
  Justified ms (aborted e) p =
      (c : Call) × (cs : List Call) × (p.calls ≡ c ∷ cs)
      × (call_model (api (length cs) c) ≡ err e)
      × (is_rate_limit_error e ≡ false)
      × (is_model_not_found_error e ≡ false)
  Justified ms cancelled p = ctx_done (length p.calls) ≡ true
  Justified ms (exhausted last) p = (m : Text) → listed m ms ≡ true → was_called m p.calls ≡ true
  Justified ms not_configured p = p.calls ≡ []

  -- The same of the tries of one model; a next model comes after a call of this one.
  abbrev TriedSo : ℕ → Text → Tried → Type 0
  TriedSo left m (ended e p) = (ms : List Text) → Justified ms e p
  TriedSo left m (next_model last p) = 0 < left → was_called m p.calls ≡ true

  was_called-IsKept :
      (ms : List Text) (n : Text) → IsKept api ctx_done ms (λ p. was_called n p.calls ≡ true)
  unfolding make_call was_called
  was_called-IsKept ms n = record {
    calls = λ m p l h. ground (arith, h);
    rotates = λ p h. h;
    switches = λ m p l h. h;
  }

  -- The tries that are left, after a call of the model.
  try_more :
      (left : ℕ) (m : Text) (last : Option Text) (p : Progress)
      → was_called m p.calls ≡ true
      → TriedSo left m (try_model api ctx_done left m last p)
      → TriedSo (suc left) m (try_model api ctx_done left m last p)
  unfolding listed
  try_more left m last p h t =
      let self : listed m (m ∷ []) ≡ true = rw (text_eq_refl m, listed) refl in
      let kept =
        try_model-keeps api ctx_done {P = λ q. was_called m q.calls ≡ true} left m last p
          (was_called-IsKept (m ∷ []) m) self h in
      elim (Tried-cases (try_model api ctx_done left m last p)) [
        | inl (e, p', f) ↦ rw f (rw f at t)
        | inr (last', p', f) ↦ rw f (λ some_left. rw f at kept)
      ]

  try_model-TriedSo :
      (left : ℕ) (m : Text) (last : Option Text) (p : Progress)
      → TriedSo left m (try_model api ctx_done left m last p)
  unfolding try_model make_call was_called
  try_model-TriedSo zero m last p = λ h. absurd (omega arith)
  try_model-TriedSo (suc left) m last p =
      let p' = (make_call api ctx_done m p).1 in
      let here : was_called m p'.calls ≡ true = rw (text_eq_refl m, was_called) refl in
      elim (Called-cases (make_call api ctx_done m p).0) [
        | inl (t, f) ↦
            rw (f, try_model) (λ ms. (_, p.calls, refl, f, (set_active_model-same m p.analyzer).3))
        | inr (e, f) ↦
            rw (f, try_model)
              (elim (Bool-cases (is_rate_limit_error e)) [
                | inl a ↦ rw a (elim (Bool-cases (ltb 1 (length p'.analyzer.api_keys))) [
                  | inl b ↦ rw b (
                      try_more left m (some e) (rotate api ctx_done p') here
                        (try_model-TriedSo left m (some e) (rotate api ctx_done p')))
                  | inr b ↦ rw b (elim (Bool-cases (ctx_done (length p'.calls))) [
                    | inl c ↦ rw c (λ ms. c)
                    | inr c ↦
                        rw c
                          (try_more left m (some e) p' here (try_model-TriedSo left m (some e) p'))
                  ])
                ])
                | inr a ↦ rw a (elim (Bool-cases (is_model_not_found_error e)) [
                  | inl b ↦ rw b (λ h. here)
                  | inr b ↦ rw b (λ ms. (_, p.calls, refl, f, a, b))
                ])
              ])
      ]

  -- The models of the whole list are still to try or were called.
  abbrev Covers : List Text → List Text → Progress → Type 0
  Covers all ms p =
      (m : Text) → listed m all ≡ true → (listed m ms ≡ true) ⊎ (was_called m p.calls ≡ true)

  try_models-Justified :
      (all ms : List Text) (last : Option Text) (p : Progress)
      → Covers all ms p
      → let (e, p') = try_models api ctx_done ms last p in Justified all e p'
  unfolding try_models listed
  try_models-Justified all [] last p h = λ m l. ground (arith, h m l)
  try_models-Justified all (m ∷ ms) last p h =
      let so = try_model-TriedSo 3 m last p in
      let kept : (n : Text)
          → was_called n p.calls ≡ true
          → Leads (λ q. was_called n q.calls ≡ true) (try_model api ctx_done 3 m last p) =
        λ n c.
          try_model-keeps api ctx_done 3 m last p (was_called-IsKept (m ∷ []) n)
            (rw (text_eq_refl m, listed) refl) c in
      elim (Tried-cases (try_model api ctx_done 3 m last p)) [
        | inl (e, p', f) ↦ rw (f, try_models) ((rw f at so) all)
        | inr (last', p', f) ↦
            let here = (rw f at so) (omega arith) in
            rw (f, try_models)
              (try_models-Justified all ms last' p'
                (λ n l. covers_next n m ms p.calls p'.calls here (λ c. rw f at (kept n c)) (h n l)))
      ]

  -- For a valid analyzer: a success is the answer to the last call, and its model is active from
  -- then on. An error that
  -- is returned as it is came from the last call, and is neither a rate limit nor a missing model.
  -- A cancelled wait came with a done context. That the models are exhausted is said only after
  -- every one of them was called.
  pub analyze_text-Justified :
      (g : GeminiAnalyzer)
      → IsValid g
      → let (e, p) = analyze_text api ctx_done g in Justified g.models e p
  unfolding analyze_text
  analyze_text-Justified g v =
      let (once, len, same, front) = get_models_to_try_lem g v.once v.active in
      elim (Bool-cases (is_none_configured g.api_keys)) [
        | inl e ↦ rw (e, analyze_text) refl
        | inr e ↦
            rw (e, analyze_text)
              (try_models-Justified g.models (get_models_to_try g) none
                (record { analyzer = g; calls = [] }) (λ m l. inl (same m ∙ l)))
      ]
