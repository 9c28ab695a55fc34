-- ===== src/ImportHandler/Csv/Roundtrip.antt =====
-- Prices written to a file and imported again.
use quant_indonesia_scraping.Prelude.{
  ◌≡◌, ◌∷◌, [], refl, Option, none, some, List, map, Text, codes, trim_space, length, All, ℤ, ok,
  trim_left, trim_right, trim_right_cons, is_space, lower,
}
use quant_indonesia_scraping.Config.{atoi}
use quant_indonesia_scraping.Domain.{StockPrice}
use quant_indonesia_scraping.ImportHandler.Csv.{
  Record, column, required, price_indices, PriceColumns, price_columns, fields, optional_field,
  parsed, keep_row, read_rows, price_of_record, price_at, price_row, parse_prices_csv,
}
use quant_indonesia_scraping.ImportHandler.Csv.Clean.{IsTrimmed, IsSymbol}

abbrev pub price_header : Record
price_header =
    codes "symbol"
    ∷ codes "date"
    ∷ codes "close_price"
    ∷ codes "open_price"
    ∷ codes "high_price"
    ∷ codes "low_price"
    ∷ codes "volume"
    ∷ []

-- The columns of that header.
abbrev own_columns : PriceColumns
own_columns = record {
  symbol = 0;
  date = 1;
  close = 2;
  open_price = some 3;
  high = some 4;
  low = some 5;
  volume = some 6;
}

price_columns-header : price_columns price_header ≡ some own_columns
unfolding price_columns price_indices required column trim_space trim_left trim_right
    trim_right_cons is_space lower
price_columns-header = refl

parse_prices_csv-columns :
    {F : Type 0} (parse_float : Text → Option F) (header : Record) (c : PriceColumns)
    (rs : List (Option Record))
    → price_columns header ≡ some c
    → (ps : List (StockPrice F)) → read_rows (length header) (price_row parse_float c) rs ≡ ok ps
    → parse_prices_csv parse_float (some header ∷ rs) ≡ ok ps
unfolding parse_prices_csv
parse_prices_csv-columns parse_float header c rs e ps h = rw (e, parse_prices_csv) h

-- A missing value is an empty field.
abbrev pub printed : {A : Type 0} → (A → Text) → Option A → Text
printed show none = []
printed show (some a) = show a

module _ {F : Type 0} (parse_float : Text → Option F) (show_float : F → Text)
    (show_int : ℤ → Text) where
  abbrev pub print_row : StockPrice F → Record
  print_row p =
      p.symbol
      ∷ p.date
      ∷ show_float p.close_price
      ∷ printed show_float p.open_price
      ∷ printed show_float p.high_price
      ∷ printed show_float p.low_price
      ∷ printed show_int p.volume
      ∷ []

  abbrev pub print_prices : List (StockPrice F) → List (Option Record)
  print_prices ps = some price_header ∷ map (λ p. some (print_row p)) ps

  -- The volume is read back as it was written.
  abbrev pub IsReadBack : Option ℤ → Type 0
  IsReadBack o = (i : ℤ) → o ≡ some i → atoi (trim_space (show_int i)) ≡ some i

  abbrev pub IsPrintable : StockPrice F → Type 0
  IsPrintable p = IsSymbol p.symbol × IsTrimmed p.date × IsReadBack p.volume

  module _ (reads_float : (f : F) → parse_float (trim_space (show_float f)) ≡ some f)
      (no_float : parse_float [] ≡ none) where
    parsed-float : (o : Option F) → parsed parse_float (some (printed show_float o)) ≡ o
    unfolding parsed trim_space trim_left trim_right
    parsed-float none = no_float
    parsed-float (some f) = reads_float f

    no_int : atoi [] ≡ none
    unfolding atoi
    no_int = refl

    parsed-int : (o : Option ℤ) → IsReadBack o → parsed atoi (some (printed show_int o)) ≡ o
    unfolding parsed trim_space trim_left trim_right
    parsed-int none h = no_int
    parsed-int (some i) h = h i refl

    price_of_record-print :
        (p : StockPrice F)
        → IsReadBack p.volume
        → price_of_record parse_float own_columns (print_row p) p.symbol p.date p.close_price ≡ p
    unfolding price_of_record optional_field
    price_of_record-print p h = rw (parsed-float p.open_price) (
        rw (parsed-float p.high_price)
          (rw (parsed-float p.low_price) (rw (parsed-int p.volume h) refl)))

    price_row-print :
        (p : StockPrice F)
        → IsPrintable p
        → price_row parse_float own_columns (print_row p) ≡ some (some p)
    unfolding price_row price_at fields
    price_row-print p (((ns, ts), us), (nd, td), h) = rw ts (
        rw us (
          rw td (
            rw (reads_float p.close_price, price_at)
              (rw ns (rw nd (rw (price_of_record-print p h) refl))))))

    rows-print :
        (ps : List (StockPrice F))
        → All IsPrintable ps
        → read_rows 7 (price_row parse_float own_columns) (map (λ p. some (print_row p)) ps) ≡ ok ps
    unfolding read_rows keep_row
    rows-print [] h = refl
    rows-print (p ∷ ps) (h, rest) = rw (price_row-print p h) (rw (rows-print ps rest) refl)

    -- Prices with clean symbols and dates, written to a file with all seven columns, are imported as
    -- they were, where ParseFloat reads back every price, and Atoi the volumes, as they were written,
    -- without the white space around them, and an empty field is no number.
    pub parse_prices_csv-print :
        (ps : List (StockPrice F))
        → All IsPrintable ps
        → parse_prices_csv parse_float (print_prices ps) ≡ ok ps
    parse_prices_csv-print ps h =
        parse_prices_csv-columns parse_float price_header own_columns _ price_columns-header ps
          (rows-print ps h)
