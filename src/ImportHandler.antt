-- ===== src/ImportHandler.antt =====
-- delivery/http/handler/import_handler.go: imports of prices and broker summaries, and the refresh
-- of all prices. The database is a state `S`; a save answers with an error, if any. echo.Map of the
-- answers is a `Payload`.
pub mod Csv
pub mod Saved
pub mod Refresh
mod Examples
use quant_indonesia_scraping.Prelude.{
  ℕ, ◌+◌, Bool, true, false, Option, none, some, List, [], ◌∷◌, ◌++◌, map, Text, codes, is_empty,
  contains, trim_space, to_upper, itoa, length, if◌then◌else◌, ℤ, Result, ok, err,
}
use quant_indonesia_scraping.Float.{Float64}
use quant_indonesia_scraping.Domain.{StockPrice, BrokerSummary}
use quant_indonesia_scraping.Response.{
  Answer, fails, succeeds, code_validation, code_not_found, code_internal, code_bad_request,
}
use quant_indonesia_scraping.YahooFinance.{Request, Reply, Session, FetchError}
use quant_indonesia_scraping.YahooFinance.Quotes.{YahooResponse, fetch_prices}
use Csv.{Record, CsvError, parse_prices_csv, parse_broker_csv}

pub record PriceImportJson (F : Type 0) : Type 0 where
  pub symbol : Text
  pub date : Text
  pub close_price : F
  pub open_price : Option F
  pub high_price : Option F
  pub low_price : Option F
  pub volume : Option ℤ

pub record BrokerImportJson (F : Type 0) : Type 0 where
  pub symbol : Text
  pub date : Text
  pub net_foreign_buy_sell : F
  pub top_buyer : Text
  pub top_seller : Text

-- The form field "file": missing, not to be opened, or the records of the file.
pub data FileField : Type 0 where
  missing : FileField
  unopened : Text → FileField
  opened : List (Option Record) → FileField

-- `body` is what c.Bind makes of the body, an error or a list of items.
pub record ImportRequest (J : Type 0) : Type 0 where
  pub content_type : Text
  pub file : FileField
  pub body : Result Text (List J)

pub data Payload (F : Type 0) : Type 0 where
  imported : ℕ → Text → Payload F
  fetched : Text → ℕ → List (StockPrice F) → Payload F
  message : Text → Payload F
  started : Text → ℕ → Payload F

-- `err.Error()` of the errors.
pub record Messages : Type 0 where
  pub csv_error : CsvError → Text
  pub fetch_error : FetchError → Text

module _ {F : Type 0} where
  pub price_of_json : PriceImportJson F → StockPrice F
  price_of_json item = record {
    symbol = to_upper (trim_space item.symbol);
    date = trim_space item.date;
    close_price = item.close_price;
    open_price = item.open_price;
    high_price = item.high_price;
    low_price = item.low_price;
    volume = item.volume;
  }

  pub summary_of_json : BrokerImportJson F → BrokerSummary F
  summary_of_json item = record {
    symbol = to_upper (trim_space item.symbol);
    date = trim_space item.date;
    net_foreign_buy_sell = item.net_foreign_buy_sell;
    top_buyer = trim_space item.top_buyer;
    top_seller = trim_space item.top_seller;
  }

  pub body_records :
      {A J : Type 0} → (J → A) → Result Text (List J) → Result (Answer (Payload F)) (List A)
  body_records convert (err e) =
      err (fails 400 code_bad_request (codes "invalid JSON payload: " ++ e))
  body_records convert (ok items) = ok (map convert items)

  -- Both imports: the records of the request or the answer that refuses it, and the saving.
  module _ {A : Type 0} (m : Messages)
      (parse : List (Option Record) → Result CsvError (List A)) where
    pub file_records : FileField → Result (Answer (Payload F)) (List A)
    file_records missing = err (fails 400 code_bad_request (codes "missing 'file' form field"))
    file_records (unopened e) = err (fails 400 code_bad_request (codes "opening file: " ++ e))
    file_records (opened rs) = elim (parse rs) [
      | err e ↦ err (fails 400 code_validation (codes "parsing CSV: " ++ m.csv_error e))
      | ok xs ↦ ok xs
    ]

    pub records_of : {J : Type 0} → (J → A) → ImportRequest J → Result (Answer (Payload F)) (List A)
    unfolding file_records body_records
    records_of convert r =
        if contains r.content_type (codes "multipart/form-data")
        then file_records r.file
        else body_records convert r.body

  module _ {S A : Type 0} (save : List A → S → Option Text × S) (kind : Text) where
    pub saved_answer : ℕ → Option Text × S → Answer (Payload F) × S
    saved_answer n (some e, s) =
        (fails 500 code_internal (codes "failed to save " ++ kind ++ codes " records: " ++ e), s)
    saved_answer n (none, s) =
        let text =
          codes "Successfully imported " ++ itoa n ++ codes " " ++ kind ++ codes " records" in
        (succeeds 200 (imported n text) none, s)

    pub import_records : Result (Answer (Payload F)) (List A) → S → Answer (Payload F) × S
    unfolding saved_answer
    import_records (err answer) s = (answer, s)
    import_records (ok []) s =
        (fails 400 code_validation (codes "no valid " ++ kind ++ codes " records to import"), s)
    import_records (ok (x ∷ xs)) s = saved_answer (length (x ∷ xs)) (save (x ∷ xs) s)

  module _ {S : Type 0} (m : Messages) (parse_float : Text → Option F) where
    pub import_prices :
        (List (StockPrice F) → S → Option Text × S)
        → ImportRequest (PriceImportJson F)
        → S
        → Answer (Payload F) × S
    unfolding import_records records_of price_of_json
    import_prices upsert_batch r s =
        import_records upsert_batch (codes "price")
          (records_of m (parse_prices_csv parse_float) price_of_json r) s

    pub import_broker_summary :
        (List (BrokerSummary F) → S → Option Text × S)
        → ImportRequest (BrokerImportJson F)
        → S
        → Answer (Payload F) × S
    unfolding import_records records_of summary_of_json
    import_broker_summary upsert_broker_summaries r s =
        import_records upsert_broker_summaries (codes "broker summary")
          (records_of m (parse_broker_csv parse_float) summary_of_json r) s

-- The counters of the background loop, with the states.
pub record Progress (S : Type 0) : Type 0 where
  pub session : Session
  pub store : S
  pub success_count : ℕ
  pub error_count : ℕ

module _ {S : Type 0} where
  abbrev pub failed_one : Progress S → Progress S
  failed_one p = record p { error_count = p.error_count + 1 }

  abbrev pub succeeded_one : Progress S → Progress S
  succeeded_one p = record p { success_count = p.success_count + 1 }

  unfoldable pub saved_one : Option Text × S → Progress S → Progress S
  saved_one (some e, s) p = failed_one (record p { store = s })
  saved_one (none, s) p = succeeded_one (record p { store = s })

  pub fetched_answer :
      {F : Type 0} → Text → List (StockPrice F) → Option Text × S → Answer (Payload F) × S
  fetched_answer symbol ps (some e, s) =
      (fails 500 code_internal (codes "failed to save fetched prices: " ++ e), s)
  fetched_answer symbol ps (none, s) = (succeeds 200 (fetched symbol (length ps) ps) none, s)

-- FetchYahooPrices and RefreshAllPrices, which use the fetcher.
module _ {F S : Type 0} (upsert_batch : List (StockPrice F) → S → Option Text × S) where
  pub save_fetched :
      Messages → Text → Result FetchError (List (StockPrice F)) → S → Answer (Payload F) × S
  unfolding fetched_answer
  save_fetched m symbol (err e) s = (
    fails 500 code_internal
        (codes "failed to fetch prices from Yahoo Finance: " ++ m.fetch_error e),
    s,
  )
  save_fetched m symbol (ok []) s =
      (fails 404 code_not_found (codes "no price data found for symbol " ++ symbol), s)
  save_fetched m symbol (ok (p ∷ ps)) s = fetched_answer symbol (p ∷ ps) (upsert_batch (p ∷ ps) s)

  -- One symbol, with what was fetched for it. No prices are a success.
  unfoldable pub refresh_with : Result FetchError (List (StockPrice F)) → Progress S → Progress S
  unfolding saved_one
  refresh_with (err e) p = failed_one p
  refresh_with (ok []) p = succeeded_one p
  refresh_with (ok (q ∷ qs)) p = saved_one (upsert_batch (q ∷ qs) p.store) p

  module _ ⦃d : Float64 F⦄ (decode : Text → Option (YahooResponse F))
      (net : List Request → Request → Reply) where
    -- The session is the fetcher's.
    pub fetch_yahoo_prices : Messages → Text → Text → Session → S → Answer (Payload F) × Session × S
    unfolding save_fetched
    fetch_yahoo_prices m [] range y s =
        (fails 400 code_validation (codes "symbol parameter is required"), y, s)
    fetch_yahoo_prices m (c ∷ cs) range y s =
        let (result, y') = fetch_prices decode net (c ∷ cs) range y in
        let (answer, s') = save_fetched m (c ∷ cs) result s in (answer, y', s')

    unfoldable pub refresh_one : Text → Progress S → Progress S
    unfolding refresh_with
    refresh_one symbol p =
        let (result, y) = fetch_prices decode net symbol (codes "1mo") p.session in
        refresh_with result (record p { session = y })

    unfoldable pub refresh_loop : List Text → Progress S → Progress S
    unfolding refresh_one
    refresh_loop [] p = p
    refresh_loop (symbol ∷ rest) p = refresh_loop rest (refresh_one symbol p)

    -- The composite index is refreshed before the stocks.
    unfoldable pub refresh_background : List Text → Session → S → Progress S
    unfolding refresh_loop
    refresh_background symbols y s =
        refresh_loop (codes "^JKSE" ∷ symbols)
          (record { session = y; store = s; success_count = 0; error_count = 0 })

-- The answer, and the symbols of the background run, if one is started.
pub refresh_all_prices :
    {F : Type 0} → Result Text (List Text) → Answer (Payload F) × Option (List Text)
refresh_all_prices (err e) = (fails 500 code_internal (codes "failed to list stocks: " ++ e), none)
refresh_all_prices (ok []) =
    (succeeds 200 (message (codes "No tracked stocks to update")) none, none)
refresh_all_prices (ok (t ∷ ts)) =
    let n = length (t ∷ ts) + 1 in
    let text = codes "Price refresh started for " ++ itoa n ++ codes " stocks in background" in
    (succeeds 202 (started text n) none, some (t ∷ ts))
