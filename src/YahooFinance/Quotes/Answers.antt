-- ===== src/YahooFinance/Quotes/Answers.antt =====
-- Which answers of Yahoo FetchPrices turns into prices, and which prices they are.
use mathlib.Core.Path.{subst}
use quant_indonesia_scraping.Prelude.{
  All-Occurs, some-injective, ok-injective, sym, ap, ◌≡◌, ◌↔◌, refl, false, Option, none, some,
  List, [], ◌∷◌, ◌++◌, Text, codes, has_prefix, trim_space, to_upper, Occurs, ◌==◌, get_elem?, ok,
  Bool-cases, inl, inr, ==_iff,
}
use quant_indonesia_scraping.Float.{Float64}
use quant_indonesia_scraping.Domain.{StockPrice}
use quant_indonesia_scraping.YahooFinance.{
  Request, Reply, Session, chart, answered, invalid, failed, tried,
}
use quant_indonesia_scraping.YahooFinance.Symbols.{ticker_of, clean_symbol, clean_symbol-ticker_of}
use quant_indonesia_scraping.YahooFinance.Quotes.{
  Quote, ChartResult, YahooResponse, prices_of_result, prices_of, decode_prices, read_prices,
  fetch_prices, effective_range, is_valid_range,
}
use quant_indonesia_scraping.YahooFinance.Quotes.Ranges.{
  IsRange, is_valid_range-IsRange, range_or_year, effective_range_lem,
}
use quant_indonesia_scraping.YahooFinance.Quotes.Rows.{IsRow, price_rows-IsRow, price_rows_complete}

module _ {F : Type 0} ⦃d : Float64 F⦄ where
  -- The prices are those of the positive closes of the first quote.
  abbrev pub IsPrices : Text → ChartResult F → List (StockPrice F) → Type 0
  IsPrices symbol r ps =
      (p : StockPrice F)
      → (Occurs p ps
          ↔ ((q : Quote F) × (get_elem? r.quote 0 ≡ some q) × IsRow symbol q 0 r.timestamp p))

  prices_of_result-IsPrices :
      (ticker : Text) (r : ChartResult F)
      → IsPrices (clean_symbol ticker) r (prices_of_result ticker r)
  unfolding prices_of_result
  prices_of_result-IsPrices ticker r p = go r.quote refl
    where
      symbol : Text
      symbol = clean_symbol ticker

      go :
          (quotes : List (Quote F))
          → r.quote ≡ quotes
          → Occurs p (prices_of_result ticker r)
            ↔ ((q : Quote F) × (get_elem? r.quote 0 ≡ some q) × IsRow symbol q 0 r.timestamp p)
      go [] e = rw (e, prices_of_result) ((λ (k, at). cc), (λ (q, at, row). cc))
      go (q ∷ qs) e =
          rw (e, prices_of_result)
            (
              (λ o. (
                q,
                refl,
                All-Occurs (IsRow symbol q 0 r.timestamp) _ p
                    (price_rows-IsRow symbol q 0 r.timestamp) o,
              )),
              (λ (q', at, row). price_rows_complete symbol q 0 r.timestamp p (
                  subst (λ (x : Quote F). IsRow symbol x 0 r.timestamp p)
                    (sym (some-injective _ _ at)) row)),
            )

  prices_of-IsPrices :
      (ticker : Text) (y : YahooResponse F) (ps : List (StockPrice F))
      → prices_of ticker y ≡ ok ps
      → (r : ChartResult F) × (y.error ≡ none)
        × (get_elem? y.result 0 ≡ some r)
        × IsPrices (clean_symbol ticker) r ps
  unfolding prices_of
  prices_of-IsPrices ticker y ps = go y.error y.result refl refl
    where
      go :
          (error : Option (Text × Text)) (result : List (ChartResult F))
          → y.error ≡ error
          → y.result ≡ result
          → prices_of ticker y ≡ ok ps
          → (r : ChartResult F) × (y.error ≡ none)
            × (get_elem? y.result 0 ≡ some r)
            × IsPrices (clean_symbol ticker) r ps
      go (some e) rs he hr = rw (he, prices_of) (λ h. cc)
      go none [] he hr = rw (he, prices_of) (rw hr (λ h. cc))
      go none (r ∷ rs) he hr =
          rw (he, prices_of)
            (rw hr (λ h. (
              r,
              refl,
              refl,
              subst (IsPrices (clean_symbol ticker) r) (ok-injective h)
                  (prices_of_result-IsPrices ticker r),
            )))

  module _ (decode : Text → Option (YahooResponse F)) where
    -- The answer that the prices come from: status 200, a body that decodes without an error of the
    -- API, and its first result.
    abbrev pub IsRead : Text → Reply → List (StockPrice F) → Type 0
    IsRead ticker reply ps =
        (body : Text) × (y : YahooResponse F) × (r : ChartResult F) × (reply
          ≡ answered 200 (some body))
        × (decode body ≡ some y)
        × (y.error ≡ none)
        × (get_elem? y.result 0 ≡ some r)
        × IsPrices (clean_symbol ticker) r ps

    read_prices-IsRead :
        (ticker : Text) (reply : Reply) (ps : List (StockPrice F))
        → read_prices decode ticker reply ≡ ok ps
        → IsRead ticker reply ps
    unfolding read_prices decode_prices
    read_prices-IsRead ticker invalid ps = λ h. cc
    read_prices-IsRead ticker failed ps = λ h. cc
    read_prices-IsRead ticker (answered status body) ps = elim (Bool-cases (status == 200)) [
      | inr e ↦ rw (e, read_prices) (λ h. cc)
      | inl e ↦ rw (e, read_prices) (decoded ((==_iff status 200).0 e) body)
    ]
      where
        parsed :
            (b : Text) (o : Option (YahooResponse F))
            → status ≡ 200
            → decode b ≡ o
            → decode_prices decode ticker (some b) ≡ ok ps
            → IsRead ticker (answered status (some b)) ps
        parsed b none e e' = rw (e', decode_prices) (λ h. cc)
        parsed b (some y) e e' =
            rw (e', decode_prices)
              (λ h.
                let (r, he, hr, prices) = prices_of-IsPrices ticker y ps h in
                (b, y, r, ap (λ n. answered n (some b)) e, e', he, hr, prices))

        decoded :
            status ≡ 200
            → (b : Option Text) → decode_prices decode ticker b ≡ ok ps
            → IsRead ticker (answered status b) ps
        decoded e none = λ h. cc
        decoded e (some b) = parsed b (decode b) e refl

    -- Where FetchPrices answers with prices, the range was one of the five that Yahoo knows, a year
    -- if none was given, one request was made, for the ticker and the range, and the answer had the
    -- status 200, decoded, held no error of the API and a result; the prices are those of its quote
    -- whose close is there and not 0 or less, each with that close, the other values of its row, the
    -- UTC date of its timestamp and the ticker's symbol, and no other. That symbol is the ticker
    -- without the exchange, unless it is an index. For another range nothing is asked; the fetcher is
    -- never changed.
    pub fetch_prices-IsRead :
        (net : List Request → Request → Reply) (symbol range : Text) (s : Session)
        → let asked = range_or_year range in
          let r = chart (ticker_of symbol) asked in
          let (result, s') = fetch_prices decode net symbol range s in
          (s'.fetcher ≡ s.fetcher)
          × (¬ IsRange asked → s' ≡ s)
          × ((ps : List (StockPrice F))
              → result ≡ ok ps
              → IsRange asked × (s' ≡ tried r s) × IsRead (ticker_of symbol) (net s.requests r) ps)
          × (has_prefix (trim_space (to_upper symbol)) (codes "^") ≡ false
              → clean_symbol (ticker_of symbol) ++ codes ".JK" ≡ ticker_of symbol)
    unfolding fetch_prices
    fetch_prices-IsRead net symbol range s = rw (sym (effective_range_lem range)) read
      where
        asked : Text
        asked = effective_range range

        r : Request
        r = chart (ticker_of symbol) asked

        read :
            let (result, s') = fetch_prices decode net symbol range s in
            (s'.fetcher ≡ s.fetcher)
            × (¬ IsRange asked → s' ≡ s)
            × ((ps : List (StockPrice F))
                → result ≡ ok ps
                → IsRange asked
                  × (s' ≡ tried r s)
                  × IsRead (ticker_of symbol) (net s.requests r) ps)
            × (has_prefix (trim_space (to_upper symbol)) (codes "^") ≡ false
                → clean_symbol (ticker_of symbol) ++ codes ".JK" ≡ ticker_of symbol)
        read = elim (Bool-cases (is_valid_range asked)) [
          | inl e ↦
              let known = is_valid_range-IsRange asked e in
              rw (e, fetch_prices)
                (
                  refl,
                  (λ h. absurd (h known)),
                  (λ ps h. (known, refl, read_prices-IsRead (ticker_of symbol) _ ps h)),
                  λ h. (clean_symbol-ticker_of symbol h).0,
                )
          | inr e ↦
              rw (e, fetch_prices)
                (refl, (λ h. refl), (λ ps h. cc), λ h. (clean_symbol-ticker_of symbol h).0)
        ]
