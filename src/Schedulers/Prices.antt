-- ===== src/Schedulers/Prices.antt =====
-- The job that updates the prices does what a refresh by request does, but for the count of symbols
-- without prices.
use quant_indonesia_scraping.Prelude.{
  ◌≤◌, ◌≡◌, refl, Option, none, some, List, [], ◌∷◌, Text, codes, Result, ok, err, arith,
}
use quant_indonesia_scraping.Float.{Float64}
use quant_indonesia_scraping.Domain.{StockPrice}
use quant_indonesia_scraping.YahooFinance.{Request, Reply, Session, FetchError}
use quant_indonesia_scraping.YahooFinance.Quotes.{YahooResponse, fetch_prices}
use quant_indonesia_scraping.ImportHandler.{
  Progress, saved_one, refresh_with, refresh_one, refresh_loop, refresh_background,
}
use quant_indonesia_scraping.Schedulers.{update_with, update_one, update_loop, price_job}

-- The same states and errors, and at most as many successes.
abbrev pub IsMilder : {S : Type 0} → Progress S → Progress S → Type 0
IsMilder p r =
    (p.session ≡ r.session)
    × (p.store ≡ r.store)
    × (p.error_count ≡ r.error_count)
    × (p.success_count ≤ r.success_count)

module _ {F S : Type 0} (upsert_batch : List (StockPrice F) → S → Option Text × S) where
  saved_one-IsMilder :
      (o : Option Text × S) (p r : Progress S)
      → IsMilder p r
      → IsMilder (saved_one o p) (saved_one o r)
  unfolding saved_one
  saved_one-IsMilder (some e, s) p r (y, st, n, k) = (y, refl, omega arith, omega arith)
  saved_one-IsMilder (none, s) p r (y, st, n, k) = (y, refl, omega arith, omega arith)

  update_with-IsMilder :
      (result : Result FetchError (List (StockPrice F))) (p r : Progress S)
      → IsMilder p r
      → IsMilder (update_with upsert_batch result p) (refresh_with upsert_batch result r)
  unfolding update_with refresh_with
  update_with-IsMilder (err e) p r (y, st, n, k) = (y, st, omega arith, omega arith)
  update_with-IsMilder (ok []) p r (y, st, n, k) = (y, st, omega arith, omega arith)
  update_with-IsMilder (ok (q ∷ qs)) p r (y, st, n, k) =
      rw st (saved_one-IsMilder (upsert_batch (q ∷ qs) r.store) _ r (y, refl, n, k))

  module _ ⦃d : Float64 F⦄ (decode : Text → Option (YahooResponse F))
      (net : List Request → Request → Reply) where
    update_one-IsMilder :
        (symbol : Text) (p r : Progress S)
        → IsMilder p r
        → IsMilder
            (update_one upsert_batch decode net symbol p)
            (refresh_one upsert_batch decode net symbol r)
    unfolding update_one refresh_one
    update_one-IsMilder symbol p r (y, st, n, k) = rw y (
        update_with-IsMilder (fetch_prices decode net symbol (codes "1mo") r.session).0 _ _
          (refl, st, n, k))

    update_loop-IsMilder :
        (symbols : List Text) (p r : Progress S)
        → IsMilder p r
        → IsMilder
            (update_loop upsert_batch decode net symbols p)
            (refresh_loop upsert_batch decode net symbols r)
    unfolding update_loop refresh_loop
    update_loop-IsMilder [] p r h = h
    update_loop-IsMilder (symbol ∷ rest) p r h =
        update_loop-IsMilder rest _ _ (update_one-IsMilder symbol p r h)

    -- For tracked stocks the job asks for the same, saves the same and meets the same errors as a
    -- refresh by request; it counts at most as many successes. Without stocks it does nothing.
    pub price_job-IsMilder :
        (symbols : List Text) (y : Session) (s : S)
        → (symbols ≡ []
            → ((price_job upsert_batch decode net (ok symbols) y s).session ≡ y)
              × ((price_job upsert_batch decode net (ok symbols) y s).store ≡ s))
          × ((t : Text) (ts : List Text)
              → symbols ≡ t ∷ ts
              → IsMilder
                  (price_job upsert_batch decode net (ok symbols) y s)
                  (refresh_background upsert_batch decode net symbols y s))
    unfolding price_job refresh_background
    price_job-IsMilder [] y s = ((λ h. (refl, refl)), λ t ts h. cc)
    price_job-IsMilder (u ∷ us) y s = (
      (λ h. cc),
      λ t ts h. update_loop-IsMilder (codes "^JKSE" ∷ u ∷ us) _ _ (refl, refl, refl, omega arith),
    )
