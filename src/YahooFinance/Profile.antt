-- ===== src/YahooFinance/Profile.antt =====
-- FetchProfile: the profile and key statistics of a stock, with one retry where the crumb is refused.
pub mod Retry
use quant_indonesia_scraping.Prelude.{
  ℕ, Option, none, some, List, [], ◌∷◌, Text, ◌==◌, if◌then◌else◌, ℤ, Result, ok, err,
}
use quant_indonesia_scraping.YahooFinance.{
  Fetcher, Request, quote_summary, Reply, invalid, failed, answered, Session, tried, CrumbError,
  FetchError, getting_crumb, refreshing_crumb, creating_request, creating_retry, fetching,
  retry_fetching, decoding, empty_result, status_error, api_error, ensure_crumb, new_fetcher,
}
use quant_indonesia_scraping.YahooFinance.Symbols.{ticker_of}

-- The decoded answer; the field Raw of a number is the number.
pub record SummaryProfile : Type 0 where
  pub sector : Text
  pub industry : Text
  pub long_business_summary : Text
  pub city : Text
  pub country : Text
  pub website : Text
  pub full_time_employees : ℤ

pub record PriceModule : Type 0 where
  pub long_name : Text
  pub market_cap : ℤ

pub record KeyStatistics (F : Type 0) : Type 0 where
  pub shares_outstanding : ℤ
  pub float_shares : ℤ
  pub trailing_eps : F
  pub fifty_two_week_high : F
  pub fifty_two_week_low : F

pub record FinancialData (F : Type 0) : Type 0 where
  pub trailing_pe : F
  pub price_to_book : F
  pub dividend_yield : F
  pub total_revenue : ℤ
  pub net_income_to_common : ℤ
  pub total_debt : ℤ
  pub total_assets : ℤ
  pub return_on_equity : F
  pub debt_to_equity : F

pub record SummaryResult (F : Type 0) : Type 0 where
  pub summary_profile : SummaryProfile
  pub price : PriceModule
  pub default_key_statistics : KeyStatistics F
  pub financial_data : FinancialData F

pub record QuoteSummary (F : Type 0) : Type 0 where
  pub result : List (SummaryResult F)
  pub error : Option (Text × Text)

pub record YahooProfile (F : Type 0) : Type 0 where
  pub long_name : Text
  pub sector : Text
  pub industry : Text
  pub long_business_summary : Text
  pub city : Text
  pub country : Text
  pub website : Text
  pub full_time_employees : ℤ
  pub market_cap : ℤ
  pub shares_outstanding : ℤ
  pub float_shares : ℤ
  pub trailing_pe : F
  pub price_to_book : F
  pub trailing_eps : F
  pub dividend_yield : F
  pub fifty_two_week_high : F
  pub fifty_two_week_low : F
  pub total_revenue : ℤ
  pub net_income : ℤ
  pub total_debt : ℤ
  pub total_assets : ℤ
  pub return_on_equity : F
  pub debt_to_equity : F

abbrev pub without_crumb : Session → Session
without_crumb s = record s { fetcher = new_fetcher }

module _ {F : Type 0} where
  unfoldable pub profile_of : SummaryResult F → YahooProfile F
  profile_of r = record {
    long_name = r.price.long_name;
    sector = r.summary_profile.sector;
    industry = r.summary_profile.industry;
    long_business_summary = r.summary_profile.long_business_summary;
    city = r.summary_profile.city;
    country = r.summary_profile.country;
    website = r.summary_profile.website;
    full_time_employees = r.summary_profile.full_time_employees;
    market_cap = r.price.market_cap;
    shares_outstanding = r.default_key_statistics.shares_outstanding;
    float_shares = r.default_key_statistics.float_shares;
    trailing_pe = r.financial_data.trailing_pe;
    price_to_book = r.financial_data.price_to_book;
    trailing_eps = r.default_key_statistics.trailing_eps;
    dividend_yield = r.financial_data.dividend_yield;
    fifty_two_week_high = r.default_key_statistics.fifty_two_week_high;
    fifty_two_week_low = r.default_key_statistics.fifty_two_week_low;
    total_revenue = r.financial_data.total_revenue;
    net_income = r.financial_data.net_income_to_common;
    total_debt = r.financial_data.total_debt;
    total_assets = r.financial_data.total_assets;
    return_on_equity = r.financial_data.return_on_equity;
    debt_to_equity = r.financial_data.debt_to_equity;
  }

  unfoldable pub summary_profile_of : Text → QuoteSummary F → Result FetchError (YahooProfile F)
  unfolding profile_of
  summary_profile_of ticker q = elim q.error [
    | some (code, description) ↦ err (api_error code description)
    | none ↦ elim q.result [ [] ↦ err (empty_result ticker) | r ∷ rs ↦ ok (profile_of r) ]
  ]

  module _ (decode : Text → Option (QuoteSummary F)) where
    unfoldable pub decode_profile : Text → Option Text → Result FetchError (YahooProfile F)
    unfolding summary_profile_of
    decode_profile ticker none = err (decoding ticker)
    decode_profile ticker (some body) = elim (decode body) [
      | none ↦ err (decoding ticker)
      | some q ↦ summary_profile_of ticker q
    ]

    -- The test of the status and what follows it.
    unfoldable pub read_profile : Text → ℕ → Option Text → Result FetchError (YahooProfile F)
    unfolding decode_profile
    read_profile ticker status body =
        if status == 200 then decode_profile ticker body else err (status_error status ticker)

    unfoldable pub retried : Text → Reply → Result FetchError (YahooProfile F)
    unfolding read_profile
    retried ticker invalid = err (creating_retry ticker)
    retried ticker failed = err (retry_fetching ticker)
    retried ticker (answered status body) = read_profile ticker status body

    module _ (net : List Request → Request → Reply) (clock : ℕ → ℕ) where
      -- The second request, with the new crumb.
      unfoldable pub retry_with :
          Text → Result CrumbError Text × Session → Result FetchError (YahooProfile F) × Session
      unfolding retried
      retry_with ticker (err e, s) = (err (refreshing_crumb ticker e), s)
      retry_with ticker (ok crumb, s) =
          let r = quote_summary ticker crumb in (retried ticker (net s.requests r), tried r s)

      unfoldable pub first_answer :
          Text → Reply → Session → Result FetchError (YahooProfile F) × Session
      unfolding retry_with read_profile
      first_answer ticker invalid s = (err (creating_request ticker), s)
      first_answer ticker failed s = (err (fetching ticker), s)
      first_answer ticker (answered status body) s =
          if status == 401
          then retry_with ticker (ensure_crumb net clock (without_crumb s))
          else (read_profile ticker status body, s)

      unfoldable pub profile_with :
          Text → Result CrumbError Text × Session → Result FetchError (YahooProfile F) × Session
      unfolding first_answer
      profile_with ticker (err e, s) = (err (getting_crumb ticker e), s)
      profile_with ticker (ok crumb, s) =
          let r = quote_summary ticker crumb in first_answer ticker (net s.requests r) (tried r s)

      unfoldable pub fetch_profile : Text → Session → Result FetchError (YahooProfile F) × Session
      unfolding profile_with
      fetch_profile symbol s = profile_with (ticker_of symbol) (ensure_crumb net clock s)
