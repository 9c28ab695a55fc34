-- ===== src/Gemini.antt =====
-- llm/gemini.go: the analysis of an article by the Gemini API, with fallback models, rotating keys
-- and retries. The HTTP exchange and the JSON decoder are parameters.
pub mod Matching
pub mod Models
pub mod Invariant
pub mod Calls
pub mod Ends
pub mod Results
mod Examples
use quant_indonesia_scraping.Prelude.{
  decimal_digits, itoa, ℕ, zero, suc, ◌+◌, ◌-◌, ◌*◌, ◌/◌, ◌%◌, ◌<◌, Bool, true, false, not, ◌&&◌,
  ◌||◌, Option, none, some, List, [], ◌∷◌, ◌++◌, pos, negsuc, Text, codes, text_eq, lower, is_empty,
  length, ltb, leb, ◌==◌, get_elem?, if◌then◌else◌, trim_space,
}
use quant_indonesia_scraping.Float.{Float64}
use quant_indonesia_scraping.Domain.{AnalysisResult, ExtractedTag}

abbrev pub fallback_models : List Text
fallback_models =
    codes "gemini-3.1-flash-lite"
    ∷ codes "gemini-3.6-flash"
    ∷ codes "gemini-3.5-flash"
    ∷ codes "gemini-flash-latest"
    ∷ codes "gemini-pro-latest"
    ∷ []

pub record GeminiAnalyzer : Type 0 where
  pub api_keys : List Text
  pub primary_model : Text
  pub models : List Text  -- the field fallbackModels
  pub active_key_idx : ℕ
  pub active_model : Text

-- The models other than `m`, in order: both loops that build a list of models.
pub others : Text → List Text → List Text
others m [] = []
others m (n ∷ ns) = let rest = others m ns in if text_eq n m then rest else n ∷ rest

-- `keys` is `cfg.APIKeys()`, `model` is `cfg.Model`.
pub new_gemini_analyzer : List Text → Text → GeminiAnalyzer
new_gemini_analyzer keys model =
    let primary = if is_empty model then codes "gemini-3.1-flash-lite" else model in
    record {
      api_keys = keys;
      primary_model = primary;
      models = primary ∷ others primary fallback_models;
      active_key_idx = 0;
      active_model = primary;
    }

pub get_models_to_try : GeminiAnalyzer → List Text
get_models_to_try g = g.active_model ∷ others g.active_model g.models

pub set_active_model : Text → GeminiAnalyzer → GeminiAnalyzer
set_active_model m g = if text_eq g.active_model m then g else record g { active_model = m }

-- `none` is an index out of range, a panic.
pub get_active_api_key : GeminiAnalyzer → Option Text
get_active_api_key g = elim g.api_keys [
  | [] ↦ some []
  | k ∷ ks ↦ get_elem? (k ∷ ks) g.active_key_idx
]

pub rotate_api_key : GeminiAnalyzer → GeminiAnalyzer
rotate_api_key g =
    if ltb 1 (length g.api_keys)
    then record g { active_key_idx = (g.active_key_idx + 1) % length g.api_keys }
    else g

-- `s[i+j]` and `substr[j]` agree up to the case of their letters, for all j.
matches_here : Text → Text → Bool
matches_here s [] = true
matches_here [] (d ∷ p) = false
matches_here (c ∷ s) (d ∷ p) = elim (lower c == lower d) [ true ↦ matches_here s p | false ↦ false ]

pub contains_str : Text → Text → Bool
unfolding matches_here lower
contains_str [] p = is_empty p
contains_str (c ∷ s) p = elim (matches_here (c ∷ s) p) [ true ↦ true | false ↦ contains_str s p ]

pub is_rate_limit_error : Text → Bool
unfolding contains_str
is_rate_limit_error err =
    contains_str err (codes "error 429")
    || contains_str err (codes "RESOURCE_EXHAUSTED")
    || contains_str err (codes "quota")

pub is_model_not_found_error : Text → Bool
unfolding contains_str
is_model_not_found_error err =
    contains_str err (codes "error 404")
    || contains_str err (codes "not found")
    || contains_str err (codes "no longer available")

-- The decoded body: the code and message of `error`, or the parts of each candidate.
pub record GeminiResponse : Type 0 where
  pub candidates : List (List Text)
  pub error : Option (ℕ × Text)

pub data Exchange : Type 0 where
  not_created failed undecodable : Text → Exchange
  response : GeminiResponse → Exchange

pub data Called : Type 0 where
  text : Text → Called
  err : Text → Called

abbrev llm_failed : Text
llm_failed = codes "llm processing failed: "

first_text : List (List Text) → Called
first_text ((t ∷ ts) ∷ cs) = text t
first_text ([] ∷ cs) = err (llm_failed ++ codes "empty response from gemini")
first_text [] = err (llm_failed ++ codes "empty response from gemini")

-- What callModel makes of the exchange with the API.
pub call_model : Exchange → Called
unfolding first_text decimal_digits
call_model (not_created e) = err (codes "creating gemini request: " ++ e)
call_model (failed e) = err (llm_failed ++ (codes "gemini request failed: " ++ e))
call_model (undecodable e) = err (llm_failed ++ (codes "decoding gemini response: " ++ e))
call_model (response r) = elim r.error [
  | some (code, message) ↦
      err (llm_failed ++ (codes "gemini API error " ++ (itoa code ++ (codes ": " ++ message))))
  | none ↦ first_text r.candidates
]

-- A call made: the model, and the number of the key.
pub record Call : Type 0 where
  pub model : Text
  pub key : ℕ

-- The analyzer and the calls made so far, latest first.
pub record Progress : Type 0 where
  pub analyzer : GeminiAnalyzer
  pub calls : List Call

pub data Ended : Type 0 where
  succeeded : Text → Ended
  aborted : Text → Ended
  cancelled : Ended
  exhausted : Option Text → Ended
  not_configured : Ended

-- What the retry loop of one model leads to: an end, or the next model with `lastErr`.
pub data Tried : Type 0 where
  ended : Ended → Progress → Tried
  next_model : Option Text → Progress → Tried

-- `len(g.apiKeys) == 0`
abbrev is_none_configured : List Text → Bool
is_none_configured [] = true
is_none_configured (k ∷ ks) = false

-- `api` answers the call of a model with the key of a number, as the n-th call; `ctx_done` says
-- whether the context is done during the wait after the n-th call.
module _ (api : ℕ → Call → Exchange) (ctx_done : ℕ → Bool) where
  pub make_call : Text → Progress → Called × Progress
  make_call model p =
      let c : Call = record { model = model; key = p.analyzer.active_key_idx } in
      (call_model (api (length p.calls) c), record p { calls = c ∷ p.calls })

  abbrev rotate : Progress → Progress
  rotate p = record p { analyzer = rotate_api_key p.analyzer }

  -- `for retry := 0; retry < 3; retry++`, with the retries that are left.
  pub try_model : ℕ → Text → Option Text → Progress → Tried
  try_model zero model last p = next_model last p
  try_model (suc left) model last p =
      let (called, p') = make_call model p in
      elim called [
        | text t ↦ ended (succeeded t) (record p' { analyzer = set_active_model model p'.analyzer })
        | err e ↦
            let rotated = try_model left model (some e) (rotate p') in
            let again = try_model left model (some e) p' in
            if is_rate_limit_error e
            then (if ltb 1 (length p'.analyzer.api_keys)
                then rotated
                else if ctx_done (length p'.calls)
                then ended cancelled p'
                else again)
            else if is_model_not_found_error e
            then next_model (some e) p'
            else ended (aborted e) p'
      ]

  pub try_models : List Text → Option Text → Progress → Ended × Progress
  try_models [] last p = (exhausted last, p)
  try_models (m ∷ ms) last p = elim (try_model 3 m last p) [
    | ended e p' ↦ (e, p')
    | next_model last' p' ↦ try_models ms last' p'
  ]

  -- Analyze up to the parsing of the text that a model answered.
  pub analyze_text : GeminiAnalyzer → Ended × Progress
  analyze_text g =
      let p : Progress = record { analyzer = g; calls = [] } in
      if is_none_configured g.api_keys
      then (not_configured, p)
      else try_models (get_models_to_try g) none p

valid_label : Text → Text
valid_label label =
    if text_eq label (codes "Bullish")
      || text_eq label (codes "Bearish")
      || text_eq label (codes "Neutral")
    then label
    else codes "Neutral"

module _ {F : Type 0} ⦃d : Float64 F⦄ where
  open d use {lit, lt}

  clamp_score : F → F
  clamp_score s =
      let low = if lt s (lit (negsuc 9) 1) then lit (negsuc 9) 1 else s in
      if lt (lit (pos 10) 1) low then lit (pos 10) 1 else low

  -- `unmarshal` is json.Unmarshal; `none` is its error.
  pub parse_result : (Text → Option (AnalysisResult F)) → Text → Option (AnalysisResult F)
  unfolding clamp_score valid_label
  parse_result unmarshal raw = elim (unmarshal raw) [
    | none ↦ none
    | some r ↦ some (record r {
      sentiment_score = clamp_score r.sentiment_score;
      sentiment_label = valid_label r.sentiment_label;
    })
  ]
