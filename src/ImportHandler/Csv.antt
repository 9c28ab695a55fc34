-- ===== src/ImportHandler/Csv.antt =====
-- parsePricesCSV and parseBrokerCSV, over the records that encoding/csv finds in the file; a record
-- of `none` is one that it cannot read. strconv.ParseFloat is a parameter.
pub mod Clean
pub mod Total
pub mod Roundtrip
use quant_indonesia_scraping.Prelude.{
  ℕ, ◌+◌, ◌∷◌, [], Bool, true, false, ◌||◌, Option, none, some, List, Text, codes, is_empty,
  text_eq, to_upper, to_lower, trim_space, length, get_elem?, ◌==◌, if◌then◌else◌, ℤ, Result, ok,
  err,
}
use quant_indonesia_scraping.Config.{atoi}
use quant_indonesia_scraping.Domain.{StockPrice, BrokerSummary}

abbrev pub Record : Type 0
Record = List Text

pub data CsvError : Type 0 where
  reading_header missing_headers reading_record field_count : CsvError
  out_of_range : CsvError  -- the panic of `record[i]`

-- `colIdx[name]`: of columns with the same name the last one counts. `i` is the first one's index.
unfoldable pub column : Text → ℕ → Record → Option ℕ
column name i [] = none
column name i (c ∷ cs) = elim (column name (i + 1) cs) [
  | some j ↦ some j
  | none ↦ if text_eq (to_lower (trim_space c)) name then some i else none
]

abbrev pub or_else : Option ℕ → Option ℕ → Option ℕ
or_else none o = o
or_else (some i) o = some i

pub record PriceColumns : Type 0 where
  pub symbol : ℕ
  pub date : ℕ
  pub close : ℕ
  pub open_price : Option ℕ
  pub high : Option ℕ
  pub low : Option ℕ
  pub volume : Option ℕ

-- The required columns; "close" is looked up where one of the three is missing, and then counts.
unfoldable pub required : Option ℕ → Option ℕ → Option ℕ → Option ℕ → Option (ℕ × ℕ × ℕ)
required (some s) (some d) (some c) alternate = some (s, d, c)
required (some s) (some d) none (some c) = some (s, d, c)
required _ _ _ _ = none

unfoldable pub price_indices : Record → Option (ℕ × ℕ × ℕ)
unfolding column required
price_indices header =
    required (column (codes "symbol") 0 header) (column (codes "date") 0 header)
      (column (codes "close_price") 0 header) (column (codes "close") 0 header)

unfoldable pub price_columns : Record → Option PriceColumns
unfolding price_indices
price_columns header =
    let col : Text → Option ℕ = λ name. column name 0 header in
    elim (price_indices header) [
      | none ↦ none
      | some (s, d, c) ↦ some (record {
        symbol = s;
        date = d;
        close = c;
        open_price = or_else (col (codes "open_price")) (col (codes "open"));
        high = or_else (col (codes "high_price")) (col (codes "high"));
        low = or_else (col (codes "low_price")) (col (codes "low"));
        volume = col (codes "volume");
      })
    ]

pub record BrokerColumns : Type 0 where
  pub symbol : ℕ
  pub date : ℕ
  pub net : ℕ
  pub buyer : Option ℕ
  pub seller : Option ℕ

unfoldable pub broker_indices : Record → Option (ℕ × ℕ × ℕ)
unfolding column required
broker_indices header =
    required (column (codes "symbol") 0 header) (column (codes "date") 0 header)
      (column (codes "net_foreign_buy_sell") 0 header) none

unfoldable pub broker_columns : Record → Option BrokerColumns
unfolding broker_indices
broker_columns header = elim (broker_indices header) [
  | none ↦ none
  | some (s, d, n) ↦ some (record {
    symbol = s;
    date = d;
    net = n;
    buyer = column (codes "top_buyer") 0 header;
    seller = column (codes "top_seller") 0 header;
  })
]

abbrev pub trimmed_or_empty : Option Text → Text
trimmed_or_empty none = []
trimmed_or_empty (some t) = trim_space t

-- `has && idx < len(record)`, with the field
unfoldable pub optional_field : Option ℕ → Record → Option Text
optional_field none r = none
optional_field (some i) r = get_elem? r i

-- A field that cannot be parsed counts as missing.
unfoldable pub parsed {ℓ} : {A : Type ℓ} → (Text → Option A) → Option Text → Option A
parsed parse none = none
parsed parse (some t) = parse (trim_space t)

-- The three fields that every record is asked for.
unfoldable pub fields : ℕ → ℕ → ℕ → Record → Option (Text × Text × Text)
fields s d c r = elim (get_elem? r s) [
  | none ↦ none
  | some symbol ↦ elim (get_elem? r d) [
    | none ↦ none
    | some date ↦ elim (get_elem? r c) [
      | none ↦ none
      | some value ↦ some (to_upper (trim_space symbol), trim_space date, trim_space value)
    ]
  ]
]

-- The loop over the records behind the header, which has `n` fields. A row is skipped, kept, or
-- panics.
module _ {A : Type 0} (n : ℕ) (row : Record → Option (Option A)) where
  unfoldable pub keep_row : Option (Option A) → Result CsvError (List A) → Result CsvError (List A)
  keep_row none rest = err out_of_range
  keep_row (some none) rest = rest
  keep_row (some (some a)) (err e) = err e
  keep_row (some (some a)) (ok rest) = ok (a ∷ rest)

  unfoldable pub read_rows : List (Option Record) → Result CsvError (List A)
  unfolding keep_row
  read_rows [] = ok []
  read_rows (none ∷ rs) = err reading_record
  read_rows (some r ∷ rs) =
      let rest = read_rows rs in if length r == n then keep_row (row r) rest else err field_count

module _ {F : Type 0} (parse_float : Text → Option F) where
  unfoldable pub price_of_record : PriceColumns → Record → Text → Text → F → StockPrice F
  unfolding optional_field parsed
  price_of_record c r symbol date close = record {
    symbol = symbol;
    date = date;
    close_price = close;
    open_price = parsed parse_float (optional_field c.open_price r);
    high_price = parsed parse_float (optional_field c.high r);
    low_price = parsed parse_float (optional_field c.low r);
    volume = parsed atoi (optional_field c.volume r);
  }

  -- The test of the fields, and the price.
  unfoldable pub price_at : PriceColumns → Record → Text × Text × Text → Option (StockPrice F)
  unfolding price_of_record
  price_at c r (symbol, date, value) = elim (parse_float value) [
    | none ↦ none
    | some close ↦
        if is_empty symbol || is_empty date
        then none
        else some (price_of_record c r symbol date close)
  ]

  unfoldable pub price_row : PriceColumns → Record → Option (Option (StockPrice F))
  unfolding fields price_at
  price_row c r = elim (fields c.symbol c.date c.close r) [
    | none ↦ none
    | some f ↦ some (price_at c r f)
  ]

  unfoldable pub parse_prices_csv : List (Option Record) → Result CsvError (List (StockPrice F))
  unfolding price_columns read_rows price_row
  parse_prices_csv [] = err reading_header
  parse_prices_csv (none ∷ rs) = err reading_header
  parse_prices_csv (some header ∷ rs) = elim (price_columns header) [
    | none ↦ err missing_headers
    | some c ↦ read_rows (length header) (price_row c) rs
  ]

  unfoldable pub summary_of_record : BrokerColumns → Record → Text → Text → F → BrokerSummary F
  unfolding optional_field
  summary_of_record c r symbol date net = record {
    symbol = symbol;
    date = date;
    net_foreign_buy_sell = net;
    top_buyer = trimmed_or_empty (optional_field c.buyer r);
    top_seller = trimmed_or_empty (optional_field c.seller r);
  }

  unfoldable pub summary_at : BrokerColumns → Record → Text × Text × Text → Option (BrokerSummary F)
  unfolding summary_of_record
  summary_at c r (symbol, date, value) = elim (parse_float value) [
    | none ↦ none
    | some net ↦
        if is_empty symbol || is_empty date
        then none
        else some (summary_of_record c r symbol date net)
  ]

  unfoldable pub broker_row : BrokerColumns → Record → Option (Option (BrokerSummary F))
  unfolding fields summary_at
  broker_row c r = elim (fields c.symbol c.date c.net r) [
    | none ↦ none
    | some f ↦ some (summary_at c r f)
  ]

  unfoldable pub parse_broker_csv : List (Option Record) → Result CsvError (List (BrokerSummary F))
  unfolding broker_columns read_rows broker_row
  parse_broker_csv [] = err reading_header
  parse_broker_csv (none ∷ rs) = err reading_header
  parse_broker_csv (some header ∷ rs) = elim (broker_columns header) [
    | none ↦ err missing_headers
    | some c ↦ read_rows (length header) (broker_row c) rs
  ]
