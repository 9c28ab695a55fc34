-- ===== src/YahooFinance/Examples.antt =====
-- The fetcher against a network with three prices and a profile behind a crumb that is refused once.
use quant_indonesia_scraping.Prelude.{
  ℕ, ◌+◌, ◌*◌, ◌≤◌, ◌≡◌, refl, false, none, some, List, [], ◌∷◌, ◌++◌, codes, length, has_prefix,
  to_upper, trim_space, trim_left, trim_right, trim_right_cons, is_space, upper, pos, negsuc,
  Result, ok,
}
use quant_indonesia_scraping.Float.Decimal.{Decimal, num, decimal}
use quant_indonesia_scraping.Domain.{StockPrice}
use quant_indonesia_scraping.Calendar.{
  unix_date, shifted_days, civil_date, year_of_era, format_date, four_digits, two_digits,
}
use quant_indonesia_scraping.YahooFinance.{
  Request, consent, get_crumb, chart, quote_summary, Reply, answered, Session, tried, FetchError,
  new_fetcher, is_fresh, store_crumb, read_crumb, request_crumb, ensure_crumb,
}
use quant_indonesia_scraping.YahooFinance.Symbols.{ticker_of, with_exchange, clean_symbol}
use quant_indonesia_scraping.YahooFinance.Crumb.{IsObtained, ensure_crumb-IsObtained, summaries}
use quant_indonesia_scraping.YahooFinance.Quotes.{
  YahooResponse, fetch_prices, effective_range, is_valid_range, price_rows, row_at, price_of,
  prices_of, prices_of_result, decode_prices, read_prices,
}
use quant_indonesia_scraping.YahooFinance.Quotes.Ranges.{IsRange, range_or_year}
use quant_indonesia_scraping.YahooFinance.Quotes.Answers.{IsRead, fetch_prices-IsRead}
use quant_indonesia_scraping.YahooFinance.Profile.{
  QuoteSummary, YahooProfile, fetch_profile, profile_with, first_answer, retry_with, retried,
}
use quant_indonesia_scraping.YahooFinance.Profile.Retry.{IsLast, fetch_profile-IsLast}

abbrev rupiah : ℕ → Decimal
rupiah n = num (pos (n * 10_000))

abbrev quotes : YahooResponse Decimal
quotes = record {
  error = none;
  result =
      record {
        timestamp = pos 0 ∷ pos 86_400 ∷ pos 172_800 ∷ [];
        quote =
            record {
              open_price = some (rupiah 99) ∷ [];
              high = [];
              low = [];
              close = some (rupiah 100) ∷ none ∷ some (rupiah 0) ∷ [];
              volume = some (pos 7) ∷ [];
            }
            ∷ [];
      }
      ∷ [];
}

abbrev summary : QuoteSummary Decimal
summary =
    let zero_f : Decimal = rupiah 0 in
    record {
      error = none;
      result =
          record {
            summary_profile = record {
              sector = codes "Energy";
              industry = [];
              long_business_summary = [];
              city = [];
              country = [];
              website = [];
              full_time_employees = pos 12;
            };
            price = record { long_name = codes "Adaro"; market_cap = pos 5 };
            default_key_statistics = record {
              shares_outstanding = pos 1;
              float_shares = pos 1;
              trailing_eps = zero_f;
              fifty_two_week_high = zero_f;
              fifty_two_week_low = zero_f;
            };
            financial_data = record {
              trailing_pe = zero_f;
              price_to_book = zero_f;
              dividend_yield = zero_f;
              total_revenue = pos 9;
              net_income_to_common = negsuc 2;
              total_debt = pos 0;
              total_assets = pos 0;
              return_on_equity = zero_f;
              debt_to_equity = zero_f;
            };
          }
          ∷ [];
    }

-- The first crumb is refused.
abbrev net : List Request → Request → Reply
net rs consent = answered 404 none
net rs get_crumb = answered 200 (some (codes " abc\n"))
net rs (chart ticker range) = answered 200 (some (codes "chart"))
net (r ∷ q ∷ []) (quote_summary ticker crumb) = answered 401 none
net rs (quote_summary ticker crumb) = answered 200 (some (codes "summary"))

abbrev clock : ℕ → ℕ
clock n = 1_000 + n

abbrev start : Session
start = record { fetcher = new_fetcher; requests = [] }

asks_for_jakarta : ticker_of (codes " bbca ") ≡ codes "BBCA.JK"
unfolding ticker_of with_exchange trim_space trim_left trim_right trim_right_cons is_space upper
asks_for_jakarta = refl

index_name : clean_symbol (codes "^JKSE") ≡ codes "IHSG"
unfolding clean_symbol
index_name = refl

abbrev fetched : Result FetchError (List (StockPrice Decimal)) × Session
fetched = fetch_prices (λ b. some quotes) net (codes "bbca") [] start

one_price : fetched ≡ (
  ok (
      record {
        symbol = codes "BBCA";
        date = codes "1970-01-01";
        close_price = rupiah 100;
        open_price = some (rupiah 99);
        high_price = none;
        low_price = none;
        volume = some (pos 7);
      }
      ∷ []),
  tried (chart (codes "BBCA.JK") (codes "1y")) start,
)
unfolding fetch_prices effective_range is_valid_range read_prices decode_prices prices_of
    prices_of_result price_rows row_at price_of ticker_of with_exchange trim_space trim_left
    trim_right trim_right_cons is_space upper clean_symbol unix_date shifted_days civil_date
    year_of_era format_date four_digits two_digits
one_price = refl

ensure_crumb-IsObtained_example : IsObtained net clock start (ensure_crumb net clock start)
ensure_crumb-IsObtained_example = ensure_crumb-IsObtained net clock start

fetch_prices-IsRead_example :
    let asked = range_or_year [] in
    let r = chart (ticker_of (codes "bbca")) asked in
    (fetched.1.fetcher ≡ new_fetcher)
    × (¬ IsRange asked → fetched.1 ≡ start)
    × ((ps : List (StockPrice Decimal))
        → fetched.0 ≡ ok ps
        → IsRange asked
          × (fetched.1 ≡ tried r start)
          × IsRead (λ b. some quotes) (ticker_of (codes "bbca")) (net [] r) ps)
    × (has_prefix (trim_space (to_upper (codes "bbca"))) (codes "^") ≡ false
        → clean_symbol (ticker_of (codes "bbca")) ++ codes ".JK" ≡ ticker_of (codes "bbca"))
fetch_prices-IsRead_example = fetch_prices-IsRead (λ b. some quotes) net (codes "bbca") [] start

abbrev profiled : Result FetchError (YahooProfile Decimal) × Session
profiled = fetch_profile (λ b. some summary) net clock (codes "adro") start

six_requests : length profiled.1.requests ≡ 6
unfolding fetch_profile profile_with first_answer retry_with retried ensure_crumb request_crumb
    read_crumb store_crumb is_fresh new_fetcher trim_space trim_left trim_right trim_right_cons
    is_space
six_requests = refl

fetch_profile-IsLast_example :
    (length profiled.1.requests ≤ 6)
    × (summaries profiled.1.requests ≤ 2)
    × ((p : YahooProfile Decimal)
        → profiled.0 ≡ ok p
        → IsLast (λ b. some summary) net (ticker_of (codes "adro")) profiled.1 p)
fetch_profile-IsLast_example =
    fetch_profile-IsLast (λ b. some summary) net clock (codes "adro") start
