-- ===== src/ArticleUsecase/Ingest.antt =====
-- What Ingest asks of the repositories, and what it returns.
use quant_indonesia_scraping.Prelude.{ℕ, Option, none, some, ◌∷◌, Text, inl, inr, Option-cases}
use quant_indonesia_scraping.Domain.{NewsArticle, AnalysisResult}
use quant_indonesia_scraping.ArticleUsecase.{
  Request, create, update, Log, analyzed, save_analysis, ingest,
}
use quant_indonesia_scraping.ArticleUsecase.Tags.{IsSound, associate-IsSound}

module _ {F : Type 0} (answers : Log F → Request F → Option Text) where
  save_analysis-IsSound :
      (now : ℕ) (r : AnalysisResult F) (a : NewsArticle F) (l : Log F)
      → IsSound answers l
      → IsSound answers (save_analysis answers now r a l).1
  unfolding save_analysis
  save_analysis-IsSound now r a l h =
      let a' = analyzed now r a in
      elim (Option-cases (answers l (update a'))) [
        | inl e ↦ rw (e, save_analysis) (associate-IsSound answers a'.id r.tags (update a' ∷ l) h)
        | inr (err, e) ↦ rw (e, save_analysis) h
      ]

  -- If it was so of the calls made before, then after Ingest every stock that was upserted is not
  -- blacklisted and has a normalized sector and its official name, and every association that was
  -- created is of a stock whose Upsert succeeded before.
  pub ingest-IsSound :
      (now : ℕ) (analyze : Text → Text → Option (AnalysisResult F)) (a : Option (NewsArticle F))
      (l : Log F)
      → IsSound answers l
      → IsSound answers (ingest answers now analyze a l).1
  unfolding ingest
  ingest-IsSound now analyze none l h = h
  ingest-IsSound now analyze (some a) l h = elim (Option-cases (answers l (create a))) [
    | inr (err, e) ↦ rw (e, ingest) h
    | inl e ↦
        rw (e, ingest)
          (elim (Option-cases (analyze a.title a.content_raw)) [
            | inl f ↦ rw f h
            | inr (r, f) ↦ rw f (save_analysis-IsSound now r a (create a ∷ l) h)
          ])
  ]
