-- ===== src/YahooFinance.antt =====
-- pkg/yfinance/fetcher.go: the crumb, FetchPrices and FetchProfile against a network that is a
-- parameter. Times are nanoseconds.
pub mod Symbols
pub mod Quotes
pub mod Crumb
pub mod Profile
mod Examples
use quant_indonesia_scraping.Prelude.{
  ℕ, suc, ◌+◌, ◌-◌, ◌*◌, Bool, true, false, not, ◌&&◌, ◌||◌, Option, none, some, List, [], ◌∷◌,
  Text, codes, is_empty, ltb, ◌==◌, if◌then◌else◌, length, trim_space, Result, ok, err,
}

pub record Fetcher : Type 0 where
  pub crumb : Text
  pub crumb_time : ℕ  -- 0 stands for time.Time{}

pub data Request : Type 0 where
  consent get_crumb : Request
  chart : Text → Text → Request  -- the ticker and the range
  quote_summary : Text → Text → Request  -- the ticker and the crumb

-- What `http.NewRequestWithContext` and `httpClient.Do` give; a body of `none` cannot be read.
pub data Reply : Type 0 where
  invalid failed : Reply
  answered : ℕ → Option Text → Reply

-- The fetcher, and the requests it tried so far, latest first.
pub record Session : Type 0 where
  pub fetcher : Fetcher
  pub requests : List Request

pub data CrumbError : Type 0 where
  creating_consent fetching_consent creating_crumb fetching_crumb reading_crumb : CrumbError
  crumb_status : ℕ → CrumbError

pub data FetchError : Type 0 where
  invalid_range : Text → FetchError
  getting_crumb refreshing_crumb : Text → CrumbError → FetchError
  creating_request creating_retry fetching retry_fetching decoding empty_result : Text → FetchError
  status_error : ℕ → Text → FetchError
  api_error : Text → Text → FetchError

pub new_fetcher : Fetcher
new_fetcher = record { crumb = []; crumb_time = 0 }

-- 30*time.Minute
abbrev pub crumb_ttl : ℕ
crumb_ttl = 30 * 60 * 1_000_000_000

pub is_fresh : Fetcher → ℕ → Bool
is_fresh f now = not (is_empty f.crumb) && ltb (now - f.crumb_time) crumb_ttl

abbrev pub tried : Request → Session → Session
tried r s = record s { requests = r ∷ s.requests }

-- `net` answers a request behind the requests tried before; `clock` is the time after that many.
module _ (net : List Request → Request → Reply) (clock : ℕ → ℕ) where
  abbrev pub now : Session → ℕ
  now s = clock (length s.requests)

  -- The body of the crumb, which becomes the fetcher's.
  store_crumb : Option Text → Session → Result CrumbError Text × Session
  store_crumb none s = (err reading_crumb, s)
  store_crumb (some body) s =
      let crumb = trim_space body in
      (ok crumb, record s { fetcher = record { crumb = crumb; crumb_time = now s } })

  read_crumb : Reply → Session → Result CrumbError Text × Session
  unfolding store_crumb
  read_crumb invalid s = (err creating_crumb, s)
  read_crumb failed s = (err fetching_crumb, s)
  read_crumb (answered status body) s =
      if status == 200 then store_crumb body s else (err (crumb_status status), s)

  -- Step 2, behind the answer of the consent page, whose status does not matter.
  request_crumb : Reply → Session → Result CrumbError Text × Session
  unfolding read_crumb
  request_crumb invalid s = (err creating_consent, s)
  request_crumb failed s = (err fetching_consent, s)
  request_crumb (answered status body) s = read_crumb (net s.requests get_crumb) (tried get_crumb s)

  pub ensure_crumb : Session → Result CrumbError Text × Session
  unfolding request_crumb is_fresh
  ensure_crumb s =
      if is_fresh s.fetcher (now s)
      then (ok s.fetcher.crumb, s)
      else request_crumb (net s.requests consent) (tried consent s)
