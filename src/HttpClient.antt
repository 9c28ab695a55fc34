-- ===== src/HttpClient.antt =====
-- pkg/httpclient/client.go: GET with retries, and the waits between them. Durations are nanoseconds.
-- The network, the rate limiter and the context are what each attempt meets: a `Round`.
pub mod Retry
pub mod Backoff
mod Examples
use quant_indonesia_scraping.Prelude.{
  ℕ, zero, suc, ◌+◌, ◌-◌, ◌*◌, ◌/◌, ◌^◌, Bool, true, false, not, ◌&&◌, ◌||◌, Option, none, some,
  List, [], ◌∷◌, Text, codes, is_empty, ltb, leb, ◌==◌, if◌then◌else◌,
}

-- A negative number of retries or requests counts as 0, as in the code.
pub record Config : Type 0 where
  pub timeout : ℕ
  pub max_retries : ℕ
  pub rate_limit_rps : ℕ
  pub user_agent : Text

-- The fields of the client that come from the configuration; `burst` is the limiter's second
-- argument.
pub record Client : Type 0 where
  pub timeout : ℕ
  pub limit : ℕ
  pub burst : ℕ
  pub max_retries : ℕ
  pub user_agent : Text

pub new_client : Config → Client
new_client cfg =
    let rps = if cfg.rate_limit_rps == 0 then 5 else cfg.rate_limit_rps in
    record {
      timeout = if cfg.timeout == 0 then 30_000_000_000 else cfg.timeout;
      limit = rps;
      burst = rps;
      max_retries = if cfg.max_retries == 0 then 3 else cfg.max_retries;
      user_agent = if is_empty cfg.user_agent then codes "QuantIntelBot/1.0" else cfg.user_agent;
    }

-- What `httpClient.Do` and the read of the body give.
pub data Reply : Type 0 where
  failed : Reply
  unreadable : Reply
  answered : ℕ → Text → Reply

pub record Round : Type 0 where
  pub cancelled : Bool  -- the context is done during the wait before the attempt
  pub limiter_fails : Bool
  pub request_fails : Bool
  pub reply : Reply

pub data LastError : Type 0 where
  executing reading : LastError
  server_error : ℕ → LastError

pub data GetResult : Type 0 where
  got : Text → ℕ → GetResult
  context_error : GetResult
  limiter_error : GetResult
  request_error : GetResult
  client_error : ℕ → GetResult
  exhausted : Option LastError → GetResult

-- What one attempt leads to: a return, or the next attempt with `lastErr`.
pub data Verdict : Type 0 where
  finished : GetResult → Verdict
  retry : LastError → Verdict

judge : ℕ → Text → Verdict
judge status body =
    if leb 400 status && ltb status 500 && not (status == 429)
    then finished (client_error status)
    else if leb 500 status || status == 429
    then retry (server_error status)
    else finished (got body status)

judge_reply : Reply → Verdict
judge_reply failed = retry executing
judge_reply unreadable = retry reading
judge_reply (answered status body) = judge status body

pub attempt_once : ℕ → Round → Verdict
unfolding judge judge_reply
attempt_once attempt r =
    if ltb 0 attempt && r.cancelled
    then finished context_error
    else if r.limiter_fails
    then finished limiter_error
    else if r.request_fails
    then finished request_error
    else judge_reply r.reply

-- The loop from `attempt` on, with the rounds that are left; the number counts the attempts made.
get_loop : (ℕ → Round) → ℕ → ℕ → Option LastError → GetResult × ℕ
get_loop rounds zero attempt last = (exhausted last, attempt)
get_loop rounds (suc left) attempt last = elim (attempt_once attempt (rounds attempt)) [
  | finished result ↦ (result, attempt + 1)
  | retry err ↦ get_loop rounds left (attempt + 1) (some err)
]

-- `for attempt := 0; attempt <= c.maxRetries; attempt++`
pub get : Client → (ℕ → Round) → GetResult × ℕ
unfolding get_loop
get c rounds = get_loop rounds (c.max_retries + 1) 0 none

abbrev pub base_backoff : ℕ
base_backoff = 500_000_000

abbrev pub max_backoff : ℕ
max_backoff = 30_000_000_000

-- `float64(baseBackoff) * math.Pow(2, attempt-1)`, which is exact and fits a Duration up to attempt
-- 34, under the cap.
pub raw_backoff : ℕ → ℕ
raw_backoff attempt =
    let b = base_backoff * 2 ^ (attempt - 1) in if ltb max_backoff b then max_backoff else b

-- `rand n` is `rand.Int64N(n)`.
pub calculate_backoff : (ℕ → ℕ) → ℕ → ℕ
unfolding raw_backoff
calculate_backoff rand attempt =
    let backoff = raw_backoff attempt in backoff / 2 + rand (backoff / 2)
