-- ===== src/Middleware.antt =====
-- delivery/http/middleware/cache.go and rate_limiter.go: the cache of GET answers and the limiter per
-- client address. Valkey and the token bucket of golang.org/x/time/rate are parameters.
pub mod Keys
pub mod Hits
pub mod Visitors
mod Examples
use quant_indonesia_scraping.Prelude.{
  ℕ, ◌+◌, ◌-◌, ◌*◌, ◌/◌, Bool, true, false, not, ◌&&◌, Option, none, some, List, [], ◌∷◌, ◌++◌,
  Text, codes, is_empty, text_eq, itoa, ltb, leb, ◌==◌, ℤ, pos, negsuc, if◌then◌else◌,
}

pub record CacheRequest : Type 0 where
  pub method : Text
  pub path : Text
  pub query : Text

pub build_cache_key : CacheRequest → Text
build_cache_key r =
    if is_empty r.query
    then codes "api:cache:" ++ r.path
    else codes "api:cache:" ++ r.path ++ codes "?" ++ r.query

-- What the next handler does: an error, or an answer with the status given to WriteHeader, which is 0
-- where it was not called.
pub data Outcome : Type 0 where
  handler_error : Text → Outcome
  wrote : ℕ → Text → Outcome

-- Valkey over its state: a GET, where a missing key is an error too, and a SET with a time to live.
pub record CacheClient (C : Type 0) : Type 0 where
  pub get : C → Text → Option Text
  pub set : C → Text → Text → ℕ → Option C

-- The answer with the header X-Cache, the state of the handler, and the key and body that are then
-- stored in the background.
pub record Served (S : Type 0) : Type 0 where
  pub outcome : Outcome
  pub x_cache : Option Text
  pub state : S
  pub pending : Option (Text × Text)

module _ {S : Type 0} (next : S → Outcome × S) where
  pub bypassed : S → Served S
  bypassed s =
      let (outcome, s') = next s in
      record { outcome = outcome; x_cache = none; state = s'; pending = none }

  -- Only answers from 200 to 299 are stored.
  pub to_store : Text → Outcome → Option (Text × Text)
  to_store key (handler_error e) = none
  to_store key (wrote status body) =
      if leb 200 status && ltb status 300 then some (key, body) else none

  pub missed : Text → S → Served S
  unfolding to_store
  missed key s =
      let (outcome, s') = next s in
      record {
        outcome = outcome;
        x_cache = some (codes "MISS");
        state = s';
        pending = to_store key outcome;
      }

  pub looked_up : Text → Option Text → S → Served S
  unfolding missed
  looked_up key none s = missed key s
  looked_up key (some []) s = missed key s
  looked_up key (some (c ∷ cached)) s = record {
    outcome = wrote 200 (c ∷ cached);
    x_cache = some (codes "HIT");
    state = s;
    pending = none;
  }

  -- The client is nil where Valkey is not configured.
  pub cached_handler : {C : Type 0} → Option (CacheClient C) → C → CacheRequest → S → Served S
  unfolding bypassed looked_up build_cache_key
  cached_handler none c r s = bypassed s
  cached_handler (some client) c r s =
      if text_eq r.method (codes "GET")
      then looked_up (build_cache_key r) (client.get c (build_cache_key r)) s
      else bypassed s

-- The background store, whose error is only logged.
pub settle : {C : Type 0} → CacheClient C → ℕ → Option (Text × Text) → C → C
settle client ttl none c = c
settle client ttl (some (key, body)) c = elim (client.set c key body ttl) [
  | none ↦ c
  | some c' ↦ c'
]

-- 3*time.Minute
abbrev pub stale_threshold : ℕ
stale_threshold = 3 * 60 * 1_000_000_000

pub record IpLimiter (L : Type 0) : Type 0 where
  pub limiter : L
  pub last_seen : ℕ

-- The map of visitors: one entry for an address.
abbrev pub Visitors : Type 0 → Type 0
Visitors L = List (Text × IpLimiter L)

pub find_visitor : {L : Type 0} → Text → Visitors L → Option (IpLimiter L)
find_visitor ip [] = none
find_visitor ip ((k, v) ∷ vs) =
    let rest = find_visitor ip vs in if text_eq k ip then some v else rest

pub put_visitor : {L : Type 0} → Text → IpLimiter L → Visitors L → Visitors L
put_visitor ip v [] = (ip, v) ∷ []
put_visitor ip v ((k, w) ∷ vs) =
    let rest = put_visitor ip v vs in if text_eq k ip then (k, v) ∷ vs else (k, w) ∷ rest

-- `fresh` is rate.NewLimiter with the configuration, `allow` its Allow at a time.
module _ {L : Type 0} (fresh : L) (allow : ℕ → L → Bool × L) where
  pub limiter_of : Option (IpLimiter L) → L
  limiter_of none = fresh
  limiter_of (some v) = v.limiter

  -- LoadOrStore, the time of the last request, and the bucket. Whether the request goes on.
  pub admit : Text → ℕ → Visitors L → Bool × Visitors L
  unfolding limiter_of find_visitor put_visitor
  admit ip now vs =
      let (allowed, l) = allow now (limiter_of (find_visitor ip vs)) in
      (allowed, put_visitor ip (record { limiter = l; last_seen = now }) vs)

-- One run of the cleanup.
pub clean_up : {L : Type 0} → ℕ → Visitors L → Visitors L
clean_up now [] = []
clean_up now ((k, v) ∷ vs) =
    let rest = clean_up now vs in
    if ltb stale_threshold (now - v.last_seen) then rest else (k, v) ∷ rest

-- The header Retry-After: time.Second / RPS in whole seconds, as a Duration prints them.
pub whole_seconds : ℕ → Text
whole_seconds rps = itoa (1_000_000_000 / rps / 1_000_000_000) ++ codes "s"

pub retry_after : ℤ → Text
unfolding whole_seconds
retry_after (negsuc n) = codes "1"
retry_after (pos n) =
    if n == 0
    then codes "1"
    else if text_eq (whole_seconds n) (codes "0s")
    then codes "1"
    else whole_seconds n
