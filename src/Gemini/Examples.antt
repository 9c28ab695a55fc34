-- ===== src/Gemini/Examples.antt =====
-- Runs of the analyzer with two keys.
use quant_indonesia_scraping.Prelude.{
  decimal_digits, ℕ, ◌≡◌, ◌≤◌, ◌*◌, ◌<◌, refl, Bool, false, none, some, [], ◌∷◌, ◌==◌, pos, Text,
  codes, length, arith, if◌then◌else◌,
}
use quant_indonesia_scraping.Float.Decimal.{Decimal, num, decimal}
use quant_indonesia_scraping.Domain.{AnalysisResult}
use quant_indonesia_scraping.Gemini.{
  GeminiAnalyzer, Exchange, response, Call, succeeded, new_gemini_analyzer, get_models_to_try,
  others, call_model, first_text, is_rate_limit_error, is_model_not_found_error, analyze_text,
  try_models, try_model, make_call, set_active_model, rotate_api_key, parse_result, clamp_score,
  valid_label, get_active_api_key,
}
use quant_indonesia_scraping.Gemini.Invariant.{
  IsValid, IsRunning, analyze_text-IsValid, new_gemini_analyzer-IsValid,
}
use quant_indonesia_scraping.Gemini.Calls.{analyze_text-calls}
use quant_indonesia_scraping.Gemini.Ends.{Justified, analyze_text-Justified}

abbrev two_keys : GeminiAnalyzer
two_keys = new_gemini_analyzer (codes "k1" ∷ codes "k2" ∷ []) (codes "gemini-3.6-flash")

abbrev refused : ℕ → Exchange
refused code = response (record { candidates = []; error = some (code, codes "no") })

-- The first call is rate limited, the second finds no model, and the third answers.
abbrev limited_then_missing : ℕ → Call → Exchange
limited_then_missing n c =
    if n == 0
    then refused 429
    else if n == 1
    then refused 404
    else response (record { candidates = (codes "{}" ∷ []) ∷ []; error = none })

abbrev never : ℕ → Bool
never n = false

two_keys-IsValid : IsValid two_keys
two_keys-IsValid = new_gemini_analyzer-IsValid _ _

two_keys-has : 0 < length two_keys.api_keys
unfolding new_gemini_analyzer
two_keys-has = omega arith

analyze_text-IsValid_example :
    let p = (analyze_text limited_then_missing never two_keys).1 in
    IsRunning two_keys p
    × IsValid p.analyzer
    × ((k : Text) × (get_active_api_key p.analyzer ≡ some k))
analyze_text-IsValid_example =
    analyze_text-IsValid limited_then_missing never two_keys two_keys-IsValid two_keys-has

analyze_text-calls_example :
    length (analyze_text limited_then_missing never two_keys).1.calls ≤ 3 * length two_keys.models
analyze_text-calls_example = analyze_text-calls limited_then_missing never two_keys two_keys-IsValid

analyze_text-Justified_example :
    let (e, p) = analyze_text limited_then_missing never two_keys in
    Justified limited_then_missing never two_keys.models e p
analyze_text-Justified_example =
    analyze_text-Justified limited_then_missing never two_keys two_keys-IsValid

-- Three calls: the second key for the same model, then the next model with it.
switches :
    ((analyze_text limited_then_missing never two_keys).0 ≡ succeeded (codes "{}"))
    × ((analyze_text limited_then_missing never two_keys).1.calls
        ≡ record { model = codes "gemini-3.1-flash-lite"; key = 1 }
          ∷ record { model = codes "gemini-3.6-flash"; key = 1 }
          ∷ record { model = codes "gemini-3.6-flash"; key = 0 }
          ∷ [])
unfolding analyze_text new_gemini_analyzer others get_models_to_try try_models try_model make_call
    call_model first_text decimal_digits is_rate_limit_error is_model_not_found_error
    set_active_model rotate_api_key
switches = (refl, refl)

-- A score out of range and a label that the prompt does not ask for.
abbrev decoded : AnalysisResult Decimal
decoded = record {
  sentiment_score = num (pos 30_000);
  sentiment_label = codes "Positive";
  summary = codes "up";
  tags = [];
}

checks :
    parse_result (λ raw. some decoded) (codes "{}")
    ≡ some
        (record decoded { sentiment_score = num (pos 10_000); sentiment_label = codes "Neutral" })
unfolding parse_result clamp_score valid_label
checks = refl
