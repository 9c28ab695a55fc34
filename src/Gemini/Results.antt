-- ===== src/Gemini/Results.antt =====
-- What the analyzer makes of the model's JSON.
use quant_indonesia_scraping.Prelude.{
  ◌≡◌, ◌⊎◌, refl, sym, false, Option, some, pos, negsuc, Text, codes, text_eq, text_eq→eq, arith,
  Bool-cases, inl, inr,
}
use quant_indonesia_scraping.Float.{Float64, IsNumber, ◌≼◌, IsIeee}
use quant_indonesia_scraping.Domain.{AnalysisResult}
use quant_indonesia_scraping.Gemini.{clamp_score, valid_label, parse_result}

abbrev pub IsLabel : Text → Type 0
IsLabel t = (t ≡ codes "Bullish") ⊎ ((t ≡ codes "Bearish") ⊎ (t ≡ codes "Neutral"))

-- A label stays itself, and anything else becomes Neutral.
valid_label_lem : (t : Text) → IsLabel (valid_label t) × (IsLabel t → valid_label t ≡ t)
unfolding valid_label
valid_label_lem t = elim (Bool-cases (text_eq t (codes "Bullish"))) [
  | inl a ↦ rw a (inl (text_eq→eq t _ a), λ h. refl)
  | inr a ↦ rw a (elim (Bool-cases (text_eq t (codes "Bearish"))) [
    | inl b ↦ rw b (inr (inl (text_eq→eq t _ b)), λ h. refl)
    | inr b ↦ rw b (elim (Bool-cases (text_eq t (codes "Neutral"))) [
      | inl c ↦ rw c (inr (inr (text_eq→eq t _ c)), λ h. refl)
      | inr c ↦ rw c (inr (inr refl), none_of t a b)
    ])
  ])
]
  where
    none_of :
        (t : Text)
        → text_eq t (codes "Bullish") ≡ false
        → text_eq t (codes "Bearish") ≡ false
        → IsLabel t
        → codes "Neutral" ≡ t
    none_of t a b (inl h) = absurd (ground (arith, rw h at a))
    none_of t a b (inr (inl h)) = absurd (ground (arith, rw h at b))
    none_of t a b (inr (inr h)) = sym h

module _ {F : Type 0} ⦃d : Float64 F⦄ where
  abbrev pub low : F
  low = d.lit (negsuc 9) 1

  abbrev pub high : F
  high = d.lit (pos 10) 1

  -- The score is NaN or between -1 and 1, and the label is one of the three.
  pub record IsChecked (r : AnalysisResult F) : Type 0 where
    pub score : IsNumber r.sentiment_score → (low ≼ r.sentiment_score) × (r.sentiment_score ≼ high)
    pub label : IsLabel r.sentiment_label

  module _ (ieee : IsIeee F) where
    open ieee use {not-lt→le, le_number, lit_mono, lt→not-le}

    clamp_score_lem :
        (s : F)
        → (IsNumber (clamp_score s) → (low ≼ clamp_score s) × (clamp_score s ≼ high))
          × (low ≼ s → s ≼ high → clamp_score s ≡ s)
    unfolding clamp_score
    clamp_score_lem s =
        let ends = lit_mono (negsuc 9) (pos 10) 1 (omega arith) in
        let outer = le_number low high ends in
        (
          λ n. ground (arith, ends, outer.0, outer.1, not-lt→le s low, not-lt→le high s),
          λ a b. ground (arith, lt→not-le s low, lt→not-le high s),
        )

    -- By the laws of IEEE 754, a result that is parsed has its score, unless it is NaN, in [-1, 1],
    -- and one of the three labels; its other fields are those that were decoded. A result that was
    -- right is not changed.
    pub parse_result_lem :
        (unmarshal : Text → Option (AnalysisResult F)) (raw : Text) (r : AnalysisResult F)
        → unmarshal raw ≡ some r
        → (checked : AnalysisResult F) × (parse_result unmarshal raw ≡ some checked)
          × IsChecked checked
          × (checked.summary ≡ r.summary)
          × (checked.tags ≡ r.tags)
          × (IsChecked r → IsNumber r.sentiment_score → checked ≡ r)
    unfolding parse_result
    parse_result_lem unmarshal raw r h =
        let s = clamp_score_lem r.sentiment_score in
        let l = valid_label_lem r.sentiment_label in
        (
          record r {
            sentiment_score = clamp_score r.sentiment_score;
            sentiment_label = valid_label r.sentiment_label;
          },
          rw (h, parse_result) refl,
          record { score = s.0; label = l.0 },
          refl,
          refl,
          λ c n. rw (s.1 (c.score n).0 (c.score n).1, l.1 c.label) refl,
        )
