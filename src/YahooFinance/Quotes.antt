-- ===== src/YahooFinance/Quotes.antt =====
-- FetchPrices: from the chart that Yahoo answers with to the rows of prices. The decoder of the JSON
-- is a parameter.
pub mod Rows
pub mod Ranges
pub mod Answers
use quant_indonesia_scraping.Prelude.{
  ℕ, suc, ◌+◌, Bool, true, false, ◌||◌, Option, none, some, List, [], ◌∷◌, Text, codes, is_empty,
  text_eq, ◌==◌, if◌then◌else◌, length, get_elem?, ℤ, pos, Result, ok, err,
}
use quant_indonesia_scraping.Float.{Float64}
use quant_indonesia_scraping.Domain.{StockPrice}
use quant_indonesia_scraping.Calendar.{unix_date}
use quant_indonesia_scraping.YahooFinance.{
  Request, chart, Reply, invalid, failed, answered, Session, tried, FetchError, invalid_range,
  creating_request, fetching, status_error, decoding, api_error, empty_result,
}
use quant_indonesia_scraping.YahooFinance.Symbols.{ticker_of, clean_symbol}

-- The fields of yahooResponse that the code reads.
pub record Quote (F : Type 0) : Type 0 where
  pub open_price : List (Option F)
  pub high : List (Option F)
  pub low : List (Option F)
  pub close : List (Option F)
  pub volume : List (Option ℤ)

pub record ChartResult (F : Type 0) : Type 0 where
  pub timestamp : List ℤ
  pub quote : List (Quote F)

pub record YahooResponse (F : Type 0) : Type 0 where
  pub result : List (ChartResult F)
  pub error : Option (Text × Text)  -- the code and the description

unfoldable pub effective_range : Text → Text
effective_range range = if is_empty range then codes "1y" else range

unfoldable pub is_valid_range : Text → Bool
is_valid_range range =
    text_eq range (codes "1mo")
    || text_eq range (codes "6mo")
    || text_eq range (codes "1y")
    || text_eq range (codes "5y")
    || text_eq range (codes "max")

-- `i < len(values) && values[i] != nil`, with the value
abbrev pub value_at {ℓ} : {A : Type ℓ} → List (Option A) → ℕ → Option A
value_at values i = elim (get_elem? values i) [ none ↦ none | some v ↦ v ]

module _ {F : Type 0} ⦃d : Float64 F⦄ where
  unfoldable pub price_of : Text → Quote F → ℕ → ℤ → F → StockPrice F
  price_of symbol q i ts close = record {
    symbol = symbol;
    date = unix_date ts;
    close_price = close;
    open_price = value_at q.open_price i;
    high_price = value_at q.high i;
    low_price = value_at q.low i;
    volume = value_at q.volume i;
  }

  -- The price of the row, where the close is there and positive.
  unfoldable pub row_at : Text → Quote F → ℕ → ℤ → Option (StockPrice F)
  unfolding price_of
  row_at symbol q i ts = elim (value_at q.close i) [
    | none ↦ none
    | some close ↦
        if d.le close (d.lit (pos 0) 0) then none else some (price_of symbol q i ts close)
  ]

  -- The loop over the timestamps, from the row `i` on.
  unfoldable pub price_rows : Text → Quote F → ℕ → List ℤ → List (StockPrice F)
  unfolding row_at
  price_rows symbol q i [] = []
  price_rows symbol q i (ts ∷ rest) = elim (row_at symbol q i ts) [
    | none ↦ price_rows symbol q (i + 1) rest
    | some p ↦ p ∷ price_rows symbol q (i + 1) rest
  ]

  -- An answer without timestamps or quotes is no error, and no prices.
  unfoldable pub prices_of_result : Text → ChartResult F → List (StockPrice F)
  unfolding price_rows
  prices_of_result ticker r = elim r.quote [
    | [] ↦ []
    | q ∷ qs ↦ price_rows (clean_symbol ticker) q 0 r.timestamp
  ]

  unfoldable pub prices_of : Text → YahooResponse F → Result FetchError (List (StockPrice F))
  unfolding prices_of_result
  prices_of ticker y = elim y.error [
    | some (code, description) ↦ err (api_error code description)
    | none ↦ elim y.result [
      | [] ↦ err (empty_result ticker)
      | r ∷ rs ↦ ok (prices_of_result ticker r)
    ]
  ]

  module _ (decode : Text → Option (YahooResponse F)) where
    unfoldable pub decode_prices : Text → Option Text → Result FetchError (List (StockPrice F))
    unfolding prices_of
    decode_prices ticker none = err (decoding ticker)
    decode_prices ticker (some body) = elim (decode body) [
      | none ↦ err (decoding ticker)
      | some y ↦ prices_of ticker y
    ]

    unfoldable pub read_prices : Text → Reply → Result FetchError (List (StockPrice F))
    unfolding decode_prices
    read_prices ticker invalid = err (creating_request ticker)
    read_prices ticker failed = err (fetching ticker)
    read_prices ticker (answered status body) =
        if status == 200 then decode_prices ticker body else err (status_error status ticker)

    unfoldable pub fetch_prices :
        (List Request → Request → Reply)
        → Text
        → Text
        → Session
        → Result FetchError (List (StockPrice F)) × Session
    unfolding read_prices effective_range is_valid_range
    fetch_prices net symbol range s =
        let asked = effective_range range in
        let r = chart (ticker_of symbol) asked in
        if is_valid_range asked
        then (read_prices (ticker_of symbol) (net s.requests r), tried r s)
        else (err (invalid_range asked), s)
