-- ===== src/Worker/Collect.antt =====
-- What the pipeline collects.
use quant_indonesia_scraping.Prelude.{
  ◌+◌, ◌≡◌, refl, ◌∙◌, none, some, List, [], ◌∷◌, ◌++◌, length, All, arith, inl, inr, Option-cases,
}
use mathlib.Core.List.{append_assoc, append-nil}
use quant_indonesia_scraping.Domain.{NewsArticle}
use quant_indonesia_scraping.Worker.{JobError, JobResult, collect_results}
use quant_indonesia_scraping.Worker.Dedup.{IsSettled}

module _ {F : Type 0} where
  -- The articles of the results without an error, and the errors, each in the order of the results.
  abbrev pub articles_of : List (JobResult F) → List (NewsArticle F)
  articles_of [] = []
  articles_of (r ∷ rs) = elim r.err [
    | some e ↦ articles_of rs
    | none ↦ elim r.article [ some a ↦ a ∷ articles_of rs | none ↦ articles_of rs ]
  ]

  abbrev pub errors_of : List (JobResult F) → List JobError
  errors_of [] = []
  errors_of (r ∷ rs) = elim r.err [ some e ↦ e ∷ errors_of rs | none ↦ errors_of rs ]

  collect_from :
      (rs : List (JobResult F)) (articles : List (NewsArticle F)) (errs : List JobError)
      → collect_results rs articles errs ≡ (articles ++ articles_of rs, errs ++ errors_of rs)
  unfolding collect_results
  collect_from [] articles errs = simp append-nil
  collect_from (r ∷ rs) articles errs = elim (Option-cases r.err) [
    | inr (e, f) ↦
        rw (f, collect_results) (collect_from rs articles (errs ++ (e ∷ [])) ∙ rw append_assoc refl)
    | inl f ↦ elim (Option-cases r.article) [
      | inl g ↦ rw (f, g, collect_results) (collect_from rs articles errs)
      | inr (a, g) ↦
          rw (f, g, collect_results)
            (collect_from rs (articles ++ (a ∷ [])) errs ∙ rw append_assoc refl)
    ]
  ]

  counted_once :
      (rs : List (JobResult F))
      → All IsSettled rs
      → length (articles_of rs) + length (errors_of rs) ≡ length rs
  counted_once [] h = omega arith
  counted_once (r ∷ rs) h = ground (arith, h.0, counted_once rs h.1)

  -- Every result is collected once, as an article or as an error, in order.
  pub collect_results_lem :
      (rs : List (JobResult F))
      → All IsSettled rs
      → let (articles, errs) = collect_results rs [] [] in
        (articles ≡ articles_of rs)
        × (errs ≡ errors_of rs)
        × (length articles + length errs ≡ length rs)
  collect_results_lem rs h = rw (collect_from rs [] []) (refl, refl, counted_once rs h)
