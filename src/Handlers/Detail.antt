-- ===== src/Handlers/Detail.antt =====
-- StockHandler.GetDetail and FetchProfile: a stock with its profile, which is fetched again after a
-- day. `S` is the state of the profile repository.
pub mod Served
use quant_indonesia_scraping.Prelude.{
  ℕ, ◌-◌, ◌*◌, Bool, true, false, ◌||◌, Option, none, some, List, [], ◌∷◌, Text, codes, is_nil, ltb,
  ℤ, pos, ltb_ℤ, Result, ok, err, if◌then◌else◌,
}
use quant_indonesia_scraping.Domain.{Stock, StockProfile, Executive, ArticleFilter}
use quant_indonesia_scraping.Response.{Answer, fails, succeeds, code_internal}
use quant_indonesia_scraping.Postgres.{RepoError}
use quant_indonesia_scraping.YahooFinance.{Request, Reply, Session, FetchError}
use quant_indonesia_scraping.YahooFinance.Profile.{YahooProfile, QuoteSummary, fetch_profile}
use quant_indonesia_scraping.Handlers.{entity_answer}

-- domain.StockDetail
pub record StockDetail (F D : Type 0) : Type 0 where
  pub stock : Stock
  pub profile : Option (StockProfile F)
  pub executives : List Executive
  pub news : List D

-- An error is only logged.
abbrev pub list_or_nil : {A : Type 0} → Result RepoError (List A) → List A
list_or_nil (ok xs) = xs
list_or_nil (err e) = []

abbrev pub value_or_nil : {A : Type 0} → Result RepoError A → Option A
value_or_nil (ok x) = some x
value_or_nil (err e) = none

-- 24*time.Hour
abbrev pub profile_ttl : ℕ
profile_ttl = 24 * 3_600_000_000_000

module _ {F : Type 0} where
  unfoldable pub new_profile : Text → YahooProfile F → StockProfile F
  new_profile symbol yp = record {
    symbol = symbol;
    description = yp.long_business_summary;
    industry = yp.industry;
    founded_year = none;
    city = yp.city;
    country = yp.country;
    employees = if ltb_ℤ (pos 0) yp.full_time_employees then some yp.full_time_employees else none;
    website = yp.website;
    market_cap = some yp.market_cap;
    shares_outstanding = some yp.shares_outstanding;
    float_shares = some yp.float_shares;
    trailing_pe = some yp.trailing_pe;
    price_to_book = some yp.price_to_book;
    trailing_eps = some yp.trailing_eps;
    dividend_yield = some yp.dividend_yield;
    week52_high = some yp.fifty_two_week_high;
    week52_low = some yp.fifty_two_week_low;
    total_revenue = some yp.total_revenue;
    net_income = some yp.net_income;
    total_debt = some yp.total_debt;
    total_assets = some yp.total_assets;
    return_on_equity = some yp.return_on_equity;
    debt_to_equity = some yp.debt_to_equity;
    fetched_at = 0;
  }

  -- No profile, or one that is more than a day old.
  unfoldable pub is_stale : ℕ → Option (StockProfile F) → Bool
  is_stale now none = true
  is_stale now (some p) = ltb profile_ttl (now - p.fetched_at)

  module _ {S : Type 0} (upsert : StockProfile F → S → Option Text × S) where
    -- The profile after the attempt to save the new one.
    unfoldable pub saved_profile :
        Option (StockProfile F) → StockProfile F → Option Text × S → Option (StockProfile F) × S
    saved_profile old new (some e, s) = (old, s)
    saved_profile old new (none, s) = (some new, s)

    unfoldable pub refreshed_profile :
        Text
        → Option (StockProfile F)
        → Result FetchError (YahooProfile F)
        → S
        → Option (StockProfile F) × S
    unfolding saved_profile new_profile
    refreshed_profile symbol old (err e) s = (old, s)
    refreshed_profile symbol old (ok yp) s =
        let new = new_profile symbol yp in saved_profile old new (upsert new s)

    unfoldable pub fetched_profile_answer :
        StockProfile F → Option Text × S → Answer (StockProfile F) × S
    fetched_profile_answer new (some e, s) =
        (fails 500 code_internal (codes "failed to save profile"), s)
    fetched_profile_answer new (none, s) = (succeeds 200 new none, s)

    unfoldable pub profile_answer :
        Text → Result FetchError (YahooProfile F) → S → Answer (StockProfile F) × S
    unfolding fetched_profile_answer
    profile_answer symbol (err e) s = (fails 500 code_internal (codes "failed to fetch profile"), s)
    profile_answer symbol (ok yp) s =
        let new = new_profile symbol yp in fetched_profile_answer new (upsert new s)

    module _ (decode : Text → Option (QuoteSummary F)) (net : List Request → Request → Reply)
        (clock : ℕ → ℕ) where
      -- POST /api/v1/stocks/:symbol/profile
      unfoldable pub fetch_profile_handler :
          Text → Session → S → Answer (StockProfile F) × Session × S
      unfolding profile_answer
      fetch_profile_handler symbol y s =
          let (result, y') = fetch_profile decode net clock symbol y in
          let (answer, s') = profile_answer symbol result s in (answer, y', s')

      -- The profile of the answer, fetched anew if it is stale.
      unfoldable pub current_profile :
          Stock
          → Text
          → ℕ
          → Option (StockProfile F)
          → Session
          → S
          → Option (StockProfile F) × Session × S
      unfolding refreshed_profile is_stale
      current_profile stock symbol now old y s =
          let (result, y') = fetch_profile decode net clock symbol y in
          let (profile, s') = refreshed_profile stock.symbol old result s in
          if is_stale now old then (profile, y', s') else (old, y, s)

      -- `find` is the use case's GetBySymbol, `stored` the profile repository's, and `executives` and
      -- `news` what the other repositories give.
      unfoldable pub get_detail :
          {D : Type 0}
          → Result RepoError Stock
          → Result RepoError (StockProfile F)
          → Result RepoError (List Executive)
          → Result RepoError (List D)
          → Text
          → ℕ
          → Session
          → S
          → Answer (StockDetail F D) × Session × S
      unfolding current_profile
      get_detail {D = D} (err e) stored executives news symbol now y s =
          (entity_answer (codes "stock not found") (err e), y, s)
      get_detail {D = D} (ok stock) stored executives news symbol now y s =
          let (profile, y', s') = current_profile stock symbol now (value_or_nil stored) y s in
          let detail : StockDetail F D = record {
            stock = stock;
            profile = profile;
            executives = list_or_nil executives;
            news = list_or_nil news;
          } in
          (succeeds 200 detail none, y', s')
