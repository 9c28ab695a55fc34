-- ===== src/ArticleUsecase/Batch/Examples.antt =====
-- The events of a batch.
use quant_indonesia_scraping.Prelude.{
  ◌≡◌, refl, false, inl, inr, none, [], ◌∷◌, codes, decimal_digits, pos,
}
use quant_indonesia_scraping.Float.Decimal.{Decimal, num}
use quant_indonesia_scraping.Domain.{NewsArticle, AnalysisResult}
use quant_indonesia_scraping.ArticleUsecase.{listing_failed}
use quant_indonesia_scraping.ArticleUsecase.Batch.{
  none_event, start_event, progress_event, error_event, finished_event, done_event,
  reprocess_listed, reprocess_unanalyzed,
}

abbrev article : NewsArticle Decimal
article = record {
  id = 7;
  url_hash = [];
  title = codes "Banks";
  url = codes "https://example.com/a";
  source = codes "CNBC";
  summary = [];
  content_raw = codes "text";
  sentiment_score = none;
  sentiment_label = none;
  published_at = none;
  ingested_at = 0;
  processed_at = none;
  created_at = 0;
  updated_at = 0;
  tags = [];
}

abbrev analysis : AnalysisResult Decimal
analysis = record {
  sentiment_score = num (pos 5_000);
  sentiment_label = codes "Bullish";
  summary = [];
  tags = [];
}

begins :
    (start_event {F = Decimal} 10).message
    ≡ codes "Mulai memproses batch 10 artikel dengan Gemini AI..."
unfolding start_event decimal_digits
begins = refl

goes_on : (progress_event 1 10 article).message ≡ codes "Gemini AI Menganalisis [2/10]: \"Banks\""
unfolding progress_event decimal_digits
goes_on = refl

fails :
    (error_event 1 10 article (codes "quota")).message ≡ codes "❌ AI Gagal [2/10]: Banks (quota)"
unfolding error_event decimal_digits
fails = refl

finishes :
    (finished_event (λ v. codes "+0.50") 1 10 article analysis).message
    ≡ codes "✅ Selesai [1/10]: Banks (Bullish | Score: +0.50)"
unfolding finished_event decimal_digits
finishes = refl

ends :
    (done_event {F = Decimal} 9 10).message
    ≡ codes "🎉 Reprocess Selesai! 9/10 artikel berhasil dianalisis AI."
unfolding done_event decimal_digits
ends = refl

listing_fails :
    (reprocess_unanalyzed {F = Decimal}
      (λ l r. none)
      (λ v. [])
      (λ i. i)
      (λ i a. inr analysis)
      (λ i. false)
      (inl (codes "timeout"))
      []).errs
    ≡ listing_failed (codes "timeout") ∷ []
unfolding reprocess_unanalyzed
listing_fails = refl

nothing_listed :
    (reprocess_unanalyzed {F = Decimal}
      (λ l r. none)
      (λ v. [])
      (λ i. i)
      (λ i a. inr analysis)
      (λ i. false)
      (inr [])
      []).events
    ≡ none_event ∷ []
unfolding reprocess_unanalyzed reprocess_listed none_event
nothing_listed = refl
