-- ===== src/ImportHandler/Examples.antt =====
-- Imports of small files, and a refresh where one of three stocks cannot be fetched.
use quant_indonesia_scraping.Prelude.{
  ℕ, ◌+◌, ◌≡◌, ◌≢◌, refl, true, Option, none, some, List, [], ◌∷◌, Text, codes, contains, length,
  All, trim_space, trim_left, trim_right, trim_right_cons, is_space, upper, lower, ℤ, pos, ok, err,
}
use quant_indonesia_scraping.Float.Decimal.{Decimal, decimal}
use quant_indonesia_scraping.Config.{atoi}
use quant_indonesia_scraping.Domain.{StockPrice}
use quant_indonesia_scraping.YahooFinance.{Request, Reply, failed, answered, Session, new_fetcher}
use quant_indonesia_scraping.YahooFinance.Quotes.{YahooResponse}
use quant_indonesia_scraping.ImportHandler.{
  PriceImportJson, opened, ImportRequest, Messages, price_of_json, records_of, import_prices,
  refresh_background, import_records, saved_answer, file_records, body_records, refresh_all_prices,
}
use quant_indonesia_scraping.ImportHandler.Csv.{
  Record, out_of_range, parse_prices_csv, parse_broker_csv, read_rows, keep_row, price_row,
  price_at, price_of_record, price_columns, price_indices, required, column, fields, optional_field,
  parsed,
}
use quant_indonesia_scraping.ImportHandler.Csv.Clean.{IsSymbol, IsTrimmed}
use quant_indonesia_scraping.ImportHandler.Csv.Total.{parse_csv-total}
use quant_indonesia_scraping.ImportHandler.Csv.Roundtrip.{print_prices, parse_prices_csv-print}
use quant_indonesia_scraping.ImportHandler.Saved.{IsSaved, import_prices-IsSaved}
use quant_indonesia_scraping.ImportHandler.Refresh.{with_charts, refresh_background-counted}

-- A number of one character, between letters.
abbrev parse_mark : Text → Option ℕ
parse_mark [] = none
parse_mark (c ∷ []) = none
parse_mark (c ∷ d ∷ []) = none
parse_mark (c ∷ d ∷ e ∷ s) = some d

abbrev show_mark : ℕ → Text
show_mark n = b'x' ∷ n ∷ b'x' ∷ []

abbrev show_int : ℤ → Text
show_int i = codes "7"

abbrev price : StockPrice ℕ
price = record {
  symbol = codes "BBCA";
  date = codes "2026-01-02";
  close_price = 5;
  open_price = some 4;
  high_price = none;
  low_price = none;
  volume = some (pos 7);
}

reads_mark : (n : ℕ) → parse_mark (trim_space (show_mark n)) ≡ some n
unfolding trim_space trim_left trim_right trim_right_cons is_space
reads_mark n = refl

reads_seven : (i : ℤ) → some (pos 7) ≡ some i → atoi (trim_space (show_int i)) ≡ some i
unfolding trim_space trim_left trim_right trim_right_cons is_space atoi
reads_seven i h = h

price-clean : (IsSymbol price.symbol × IsTrimmed price.date)
unfolding trim_space trim_left trim_right trim_right_cons is_space upper
price-clean = (((refl, refl), refl), (refl, refl))

parse_prices_csv-print_example :
    parse_prices_csv parse_mark (print_prices parse_mark show_mark show_int (price ∷ []))
    ≡ ok (price ∷ [])
parse_prices_csv-print_example =
    parse_prices_csv-print parse_mark show_mark show_int reads_mark refl (price ∷ [])
      ((price-clean.0, price-clean.1, reads_seven), tt)

abbrev header : Record
header = codes " Symbol" ∷ codes "DATE " ∷ codes "close" ∷ []

-- One good row, one without a symbol and one whose price is no number.
abbrev file : List (Option Record)
file =
    some header
    ∷ some (codes " bbca " ∷ codes "2026-01-02" ∷ codes "x9x" ∷ [])
    ∷ some (codes " " ∷ codes "2026-01-02" ∷ codes "x9x" ∷ [])
    ∷ some (codes "tlkm" ∷ codes "2026-01-02" ∷ codes "" ∷ [])
    ∷ []

abbrev bbca : StockPrice ℕ
bbca = record {
  symbol = codes "BBCA";
  date = codes "2026-01-02";
  close_price = b'9';
  open_price = none;
  high_price = none;
  low_price = none;
  volume = none;
}

file_read : parse_prices_csv parse_mark file ≡ ok (bbca ∷ [])
unfolding parse_prices_csv read_rows keep_row price_row price_at price_of_record price_columns
    price_indices required column fields optional_field parsed trim_space trim_left trim_right
    trim_right_cons is_space upper lower
file_read = refl

parse_csv-total_example :
    (parse_prices_csv parse_mark file ≢ err out_of_range)
    × (parse_broker_csv parse_mark file ≢ err out_of_range)
parse_csv-total_example = parse_csv-total parse_mark file

abbrev messages : Messages
messages = record { csv_error = λ e. codes "csv"; fetch_error = λ e. codes "fetch" }

-- A database that counts the prices saved.
abbrev upsert : List (StockPrice ℕ) → ℕ → Option Text × ℕ
upsert ps n = (none, n + length ps)

abbrev upload : ImportRequest (PriceImportJson ℕ)
upload = record {
  content_type = codes "multipart/form-data; boundary=x";
  file = opened file;
  body = ok [];
}

import_prices-IsSaved_example :
    let records = records_of {F = ℕ} messages (parse_prices_csv parse_mark) price_of_json upload in
    IsSaved upsert records 3 (import_prices messages parse_mark upsert upload 3)
    × ((xs : List (StockPrice ℕ))
        → contains upload.content_type (codes "multipart/form-data") ≡ true
        → records ≡ ok xs
        → All (λ (p : StockPrice ℕ). IsSymbol p.symbol × IsTrimmed p.date) xs)
import_prices-IsSaved_example = import_prices-IsSaved messages parse_mark upsert upload 3

one_saved : (import_prices messages parse_mark upsert upload 3).1 ≡ 4
unfolding import_prices import_records saved_answer records_of file_records parse_prices_csv
    read_rows keep_row price_row price_at price_of_record price_columns price_indices required
    column fields optional_field parsed trim_space trim_left trim_right trim_right_cons is_space
    upper lower
one_saved = refl

-- A JSON item without a symbol is saved all the same.
unnamed_saved :
    (import_prices messages parse_mark upsert
      (record {
        content_type = codes "application/json";
        file = opened [];
        body = ok (
            record {
              symbol = codes " ";
              date = [];
              close_price = 1;
              open_price = none;
              high_price = none;
              low_price = none;
              volume = none;
            }
            ∷ []);
      })
      3).1
    ≡ 4
unfolding import_prices import_records saved_answer records_of body_records price_of_json
unnamed_saved = refl

abbrev upsert_decimal : List (StockPrice Decimal) → ℕ → Option Text × ℕ
upsert_decimal ps n = (none, n + length ps)

-- Nothing comes back for one stock, and an empty chart for the others.
abbrev net : List Request → Request → Reply
net [] r = failed
net (q ∷ rs) r = answered 200 (some [])

abbrev empty_chart : YahooResponse Decimal
empty_chart = record { result = record { timestamp = []; quote = [] } ∷ []; error = none }

abbrev session : Session
session = record { fetcher = new_fetcher; requests = [] }

refresh_background-counted_example :
    let p =
      refresh_background upsert_decimal
        (λ b. some empty_chart)
        net
        (codes "BBCA" ∷ codes "TLKM" ∷ [])
        session
        3 in
    (p.success_count + p.error_count ≡ 3)
    × (p.session.fetcher ≡ new_fetcher)
    × (p.session.requests ≡ with_charts (codes "^JKSE" ∷ codes "BBCA" ∷ codes "TLKM" ∷ []) [])
refresh_background-counted_example =
    refresh_background-counted upsert_decimal (λ b. some empty_chart) net
      (codes "BBCA" ∷ codes "TLKM" ∷ []) session 3

refuses_empty_list : (refresh_all_prices {F = ℕ} (ok [])).1 ≡ none
unfolding refresh_all_prices
refuses_empty_list = refl
