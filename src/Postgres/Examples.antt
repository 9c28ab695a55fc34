-- ===== src/Postgres/Examples.antt =====
-- Queries with some of their filters, the signals of three rows, and upserts into a small table.
use quant_indonesia_scraping.Prelude.{
  ℕ, ◌≡◌, ◌≢◌, refl, true, false, none, some, List, [], ◌∷◌, Text, codes, is_empty, pos, negsuc, ok,
  err, decimal_digits,
}
use quant_indonesia_scraping.Float.Decimal.{Decimal, num, decimal}
use quant_indonesia_scraping.Domain.{ArticleFilter, SignalFilter, StockSignal, Stock}
use quant_indonesia_scraping.Postgres.{
  text_arg, time_arg, int_arg, Reply, rows, not_found, already_exists, collect, scan_rows,
  after_rows, one_row, create_result, update_result,
}
use quant_indonesia_scraping.Postgres.Queries.{
  list_articles, list_unprocessed, effective_limit, add, add_text, add_option, paged, add_offset,
  article_conditions, where_clause, join_and, render,
}
use quant_indonesia_scraping.Postgres.Signals.{SignalRow, get_stock_signals, signal_of}
use quant_indonesia_scraping.Postgres.Stocks.{
  is_specific, merge_sector, merge_stock, upsert_stock, find_stock, merged, upsert_stock-merges,
}

abbrev filter : ArticleFilter
filter = record {
  symbol = codes "BBCA";
  sentiment_label = none;
  source = [];
  from_date = some 7;
  to_date = none;
  limit = pos 500;
  offset = pos 40;
}

four_arguments :
    (list_articles filter).args
    ≡ text_arg (codes "BBCA") ∷ time_arg 7 ∷ int_arg (pos 20) ∷ int_arg (pos 40) ∷ []
unfolding list_articles effective_limit add add_text add_option paged add_offset article_conditions
four_arguments = refl

where_of_filter :
    where_clause (article_conditions filter).conditions
    ≡ codes
        " WHERE id IN (SELECT news_id FROM news_stock_tags WHERE symbol = $1) AND published_at >= $2"
unfolding where_clause join_and render article_conditions add add_text add_option decimal_digits
where_of_filter = refl

ten_unprocessed : (list_unprocessed (pos 10)).args ≡ int_arg (pos 10) ∷ []
unfolding list_unprocessed effective_limit add
ten_unprocessed = refl

abbrev week : SignalFilter
week = record { symbol = []; sector = codes "Energy"; period = [] }

abbrev row : Text → Decimal → ℕ → ℕ → SignalRow Decimal
row symbol score bullish bearish = record {
  symbol = symbol;
  company_name = [];
  sector = [];
  average_score = score;
  article_count = 9;
  bullish_count = bullish;
  bearish_count = bearish;
  neutral_count = 0;
}

-- A good score alone is no BUY.
abbrev reply : Reply (SignalRow Decimal)
reply =
    rows
      (some (row (codes "BBCA") (num (pos 5_000)) 3 1)
        ∷ some (row (codes "TLKM") (num (pos 5_000)) 1 3)
        ∷ some (row (codes "GOTO") (num (negsuc 4_999)) 1 3)
        ∷ [])
      none

abbrev signals : List (StockSignal Decimal)
signals =
    signal_of week 5 (row (codes "BBCA") (num (pos 5_000)) 3 1)
    ∷ signal_of week 5 (row (codes "TLKM") (num (pos 5_000)) 1 3)
    ∷ signal_of week 5 (row (codes "GOTO") (num (negsuc 4_999)) 1 3)
    ∷ []

signals_found : get_stock_signals week 5 reply ≡ ok signals
unfolding get_stock_signals collect scan_rows after_rows
signals_found = refl

abbrev stock : Text → Text → Text → Stock
stock symbol name sector = record { symbol = symbol; company_name = name; sector = sector }

abbrev table : List Stock
table = stock (codes "BBCA") (codes "Bank") (codes "Keuangan") ∷ stock (codes "ADRO") [] [] ∷ []

-- The sector for finance does not replace a known one.
kept_sector : upsert_stock (stock (codes "BBCA") [] (codes "Finansial")) table ≡ table
unfolding upsert_stock merge_stock merge_sector is_specific
kept_sector = refl

abbrev energy : Stock
energy = stock (codes "ADRO") (codes "Adaro") (codes "Energi")

upsert_stock-merges_example :
    (find_stock (codes "ADRO") (upsert_stock energy table)
      ≡ some (merged (find_stock (codes "ADRO") table) energy))
    × ((symbol : Text)
        → symbol ≢ codes "ADRO"
        → find_stock symbol (upsert_stock energy table) ≡ find_stock symbol table)
    × ((t : Stock)
        → find_stock (codes "ADRO") table ≡ some t
        → (t' : Stock) × (find_stock (codes "ADRO") (upsert_stock energy table) ≡ some t')
          × (t'.symbol ≡ t.symbol)
          × (is_empty t.company_name ≡ false → is_empty t'.company_name ≡ false)
          × (is_empty t.sector ≡ false → is_empty t'.sector ≡ false)
          × (is_specific (codes "Energi") ≡ true → t'.sector ≡ codes "Energi")
          × (is_specific (codes "Energi") ≡ false
              → is_empty t.sector ≡ false
              → t'.sector ≡ t.sector))
upsert_stock-merges_example = upsert_stock-merges energy table

no_row : one_row {A = Stock} (ok none) ≡ err not_found
unfolding one_row
no_row = refl

duplicate_article : create_result (some (codes "ERROR: duplicate key value")) ≡ some already_exists
unfolding create_result
duplicate_article = refl

nothing_updated : update_result (ok 0) ≡ some not_found
unfolding update_result
nothing_updated = refl
