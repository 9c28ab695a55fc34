-- ===== src/Gemini/Calls.antt =====
-- How many calls an analysis makes, and what its end says of them.
use quant_indonesia_scraping.Prelude.{
  ℕ, zero, suc, ◌+◌, ◌*◌, ◌≤◌, ◌≡◌, Bool, Option, none, some, List, [], ◌∷◌, Text, arith,
  Bool-cases, inl, inr, length,
}
use quant_indonesia_scraping.Gemini.{
  GeminiAnalyzer, Exchange, Call, Progress, Tried, make_call, rotate, try_model, try_models,
  analyze_text, get_models_to_try, is_none_configured,
}
use quant_indonesia_scraping.Gemini.Models.{get_models_to_try_lem}
use quant_indonesia_scraping.Gemini.Invariant.{Called-cases, Tried-cases, Leads, IsValid}

module _ (api : ℕ → Call → Exchange) (ctx_done : ℕ → Bool) where
  abbrev Within : ℕ → Tried → Type 0
  Within n t = Leads (λ p. length p.calls ≤ n) t

  try_model-calls :
      (left : ℕ) (m : Text) (last : Option Text) (p : Progress)
      → Within (length p.calls + left) (try_model api ctx_done left m last p)
  unfolding try_model make_call
  try_model-calls zero m last p = omega arith
  try_model-calls (suc left) m last p =
      let p' = (make_call api ctx_done m p).1 in
      elim (Called-cases (make_call api ctx_done m p).0) [
        | inl (t, f) ↦ rw (f, try_model) (omega arith)
        | inr (e, f) ↦
            let same : length p'.calls + left ≡ length p.calls + suc left = omega arith in
            let rotated = rw same at (try_model-calls left m (some e) (rotate api ctx_done p')) in
            let again = rw same at (try_model-calls left m (some e) p') in
            rw (f, try_model) (ground (arith, rotated, again))
      ]

  try_models-calls :
      (ms : List Text) (last : Option Text) (p : Progress)
      → length (try_models api ctx_done ms last p).1.calls ≤ length p.calls + 3 * length ms
  unfolding try_models
  try_models-calls [] last p = omega arith
  try_models-calls (m ∷ ms) last p =
      let here = try_model-calls 3 m last p in
      elim (Tried-cases (try_model api ctx_done 3 m last p)) [
        | inl (e, p', f) ↦ rw (f, try_models) (omega (arith, rw f at here))
        | inr (last', p', f) ↦
            rw (f, try_models) (omega (arith, rw f at here, try_models-calls ms last' p'))
      ]

  -- An analysis by a valid analyzer makes at most three calls for each of its models.
  pub analyze_text-calls :
      (g : GeminiAnalyzer)
      → IsValid g
      → length (analyze_text api ctx_done g).1.calls ≤ 3 * length g.models
  unfolding analyze_text
  analyze_text-calls g v =
      let size = (get_models_to_try_lem g v.once v.active).1 in
      let bound =
        try_models-calls (get_models_to_try g) none (record { analyzer = g; calls = [] }) in
      elim (Bool-cases (is_none_configured g.api_keys)) [
        | inl e ↦ rw (e, analyze_text) (omega arith)
        | inr e ↦ rw (e, analyze_text) (omega (arith, size, bound))
      ]
