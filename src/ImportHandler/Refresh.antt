-- ===== src/ImportHandler/Refresh.antt =====
-- The background run of RefreshAllPrices: what is asked for, and what is counted.
use quant_indonesia_scraping.Prelude.{
  ℕ, ◌+◌, ◌≡◌, refl, ap, ◌∙◌, Option, none, some, List, [], ◌∷◌, Text, codes, length, Result, ok,
  err, arith,
}
use quant_indonesia_scraping.Float.{Float64}
use quant_indonesia_scraping.Domain.{StockPrice}
use quant_indonesia_scraping.YahooFinance.{Request, chart, Reply, Session, FetchError, tried}
use quant_indonesia_scraping.YahooFinance.Symbols.{ticker_of}
use quant_indonesia_scraping.YahooFinance.Quotes.{
  YahooResponse, fetch_prices, effective_range, is_valid_range,
}
use quant_indonesia_scraping.ImportHandler.{
  Progress, saved_one, refresh_with, refresh_one, refresh_loop, refresh_background,
}

-- The requests for the symbols, one each, behind those before.
abbrev pub with_charts : List Text → List Request → List Request
with_charts [] rs = rs
with_charts (symbol ∷ rest) rs = with_charts rest (chart (ticker_of symbol) (codes "1mo") ∷ rs)

abbrev pub counted : {S : Type 0} → Progress S → ℕ
counted p = p.success_count + p.error_count

saved_one-counted :
    {S : Type 0} (o : Option Text × S) (p : Progress S)
    → (counted (saved_one o p) ≡ counted p + 1) × ((saved_one o p).session ≡ p.session)
unfolding saved_one
saved_one-counted (some e, s) p = (omega arith, refl)
saved_one-counted (none, s) p = (omega arith, refl)

refresh_with-counted :
    {F S : Type 0} (upsert_batch : List (StockPrice F) → S → Option Text × S)
    (r : Result FetchError (List (StockPrice F))) (p : Progress S)
    → (counted (refresh_with upsert_batch r p) ≡ counted p + 1)
      × ((refresh_with upsert_batch r p).session ≡ p.session)
unfolding refresh_with
refresh_with-counted upsert_batch (err e) p = (omega arith, refl)
refresh_with-counted upsert_batch (ok []) p = (omega arith, refl)
refresh_with-counted upsert_batch (ok (q ∷ qs)) p =
    saved_one-counted (upsert_batch (q ∷ qs) p.store) p

asks_once :
    {F : Type 0} ⦃d : Float64 F⦄ (decode : Text → Option (YahooResponse F))
    (net : List Request → Request → Reply) (symbol : Text) (s : Session)
    → (fetch_prices decode net symbol (codes "1mo") s).1
      ≡ tried (chart (ticker_of symbol) (codes "1mo")) s
unfolding fetch_prices effective_range is_valid_range
asks_once decode net symbol s = refl

module _ {F S : Type 0} ⦃d : Float64 F⦄ (upsert_batch : List (StockPrice F) → S → Option Text × S)
    (decode : Text → Option (YahooResponse F)) (net : List Request → Request → Reply) where
  -- One symbol is counted once, and asked for once.
  abbrev IsStep : Text → Progress S → Progress S → Type 0
  IsStep symbol p p' =
      (counted p' ≡ counted p + 1)
      × (p'.session ≡ tried (chart (ticker_of symbol) (codes "1mo")) p.session)

  refresh_one-IsStep :
      (symbol : Text) (p : Progress S)
      → IsStep symbol p (refresh_one upsert_batch decode net symbol p)
  unfolding refresh_one
  refresh_one-IsStep symbol p =
      let (n, same) =
        refresh_with-counted upsert_batch (fetch_prices decode net symbol (codes "1mo") p.session).0
          (record p { session = (fetch_prices decode net symbol (codes "1mo") p.session).1 }) in
      (n, same ∙ asks_once decode net symbol p.session)

  refresh_loop-counted :
      (symbols : List Text) (p : Progress S)
      → let p' = refresh_loop upsert_batch decode net symbols p in
        (counted p' ≡ counted p + length symbols)
        × (p'.session.fetcher ≡ p.session.fetcher)
        × (p'.session.requests ≡ with_charts symbols p.session.requests)
  unfolding refresh_loop
  refresh_loop-counted [] p = (omega arith, refl, refl)
  refresh_loop-counted (symbol ∷ rest) p =
      let (n, e) = refresh_one-IsStep symbol p in
      let (k, f, r) = refresh_loop-counted rest (refresh_one upsert_batch decode net symbol p) in
      (
        omega arith,
        f ∙ ap (λ (s : Session). s.fetcher) e,
        r ∙ ap (λ (s : Session). with_charts rest s.requests) e,
      )

  -- A refresh ends with every symbol counted once, as a success or an error, the composite index
  -- included, and makes one request for each, in their order, without touching the crumb.
  pub refresh_background-counted :
      (symbols : List Text) (y : Session) (s : S)
      → let p = refresh_background upsert_batch decode net symbols y s in
        (p.success_count + p.error_count ≡ length symbols + 1)
        × (p.session.fetcher ≡ y.fetcher)
        × (p.session.requests ≡ with_charts (codes "^JKSE" ∷ symbols) y.requests)
  unfolding refresh_background
  refresh_background-counted symbols y s =
      let start : Progress S = record {
        session = y;
        store = s;
        success_count = 0;
        error_count = 0;
      } in
      let (n, f, r) = refresh_loop-counted (codes "^JKSE" ∷ symbols) start in (omega arith, f, r)
