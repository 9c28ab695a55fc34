-- ===== src/Middleware/Examples.antt =====
-- A cache that is a list of keys, and two visitors.
use quant_indonesia_scraping.Prelude.{
  ℕ, zero, suc, ◌+◌, ◌≡◌, ◌≢◌, refl, ap, Bool, true, false, ◌&&◌, Option, none, some, List, [], ◌∷◌,
  Text, codes, text_eq, text_eq_refl, leb, ltb, if◌then◌else◌,
}
use mathlib.Core.Path.{subst}
use quant_indonesia_scraping.Middleware.{
  CacheRequest, build_cache_key, Outcome, wrote, CacheClient, cached_handler, settle, IpLimiter,
  Visitors, find_visitor, admit, clean_up,
}
use quant_indonesia_scraping.Middleware.Keys.{build_cache_key_injective}
use quant_indonesia_scraping.Middleware.Hits.{IsRecalling, cached_handler-hit}
use quant_indonesia_scraping.Middleware.Visitors.{IsAdmitted, IsDistinct, kept, admit-isolates}

abbrev request : Text → Text → CacheRequest
request path query = record { method = codes "GET"; path = path; query = query }

build_cache_key_injective_example : (codes "/a" ≡ codes "/a") × (codes "b=1" ≡ codes "b=1")
build_cache_key_injective_example =
    build_cache_key_injective (request (codes "/a") (codes "b=1"))
      (request (codes "/a") (codes "b=1")) (refl, (refl, tt)) (refl, (refl, tt)) refl

-- A question mark in the path makes two different requests share a key.
shared_key :
    build_cache_key (request (codes "/stocks/A?limit=1") [])
    ≡ build_cache_key (request (codes "/stocks/A") (codes "limit=1"))
unfolding build_cache_key
shared_key = refl

abbrev lookup : List (Text × Text) → Text → Option Text
lookup [] k = none
lookup ((l, body) ∷ es) k = if text_eq l k then some body else lookup es k

abbrev memory : CacheClient (List (Text × Text))
memory = record { get = lookup; set = λ es k body ttl. some ((k, body) ∷ es) }

abbrev memory_of : List (Text × Text) → Option (List (Text × Text)) → List (Text × Text)
memory_of es none = es
memory_of es (some fs) = fs

memory-IsRecalling : IsRecalling memory
memory-IsRecalling = record {
  recalls = λ c c' key body ttl h.
      subst (λ (es : List (Text × Text)). lookup es key ≡ some body) (ap (memory_of c) h)
        (rw (text_eq_refl key) refl);
}

-- The handler counts its calls.
abbrev next : ℕ → Outcome × ℕ
next n = (wrote 200 (codes "[]"), n + 1)

abbrev stocks : CacheRequest
stocks = request (codes "/stocks") []

cached_handler-hit_example :
    let first = cached_handler next (some memory) [] stocks 3 in
    let stored : List (Text × Text) = (build_cache_key stocks, codes "[]") ∷ [] in
    (first.outcome ≡ wrote 200 (codes "[]"))
    × (first.state ≡ 4)
    × ((leb 200 200 && ltb 200 300) ≡ true
        → (settle memory 60 first.pending [] ≡ stored)
          × (cached_handler next (some memory) stored stocks 9 ≡ record {
            outcome = wrote 200 (codes "[]");
            x_cache = some (codes "HIT");
            state = 9;
            pending = none;
          }))
    × ((leb 200 200 && ltb 200 300) ≡ false → first.pending ≡ none)
cached_handler-hit_example =
    cached_handler-hit next memory memory-IsRecalling [] ((build_cache_key stocks, codes "[]") ∷ [])
      stocks 3 4 9 200 60 (codes "[]") refl refl refl refl refl

-- A bucket is the number of its tokens.
abbrev allow : ℕ → ℕ → Bool × ℕ
allow now zero = (false, 0)
allow now (suc n) = (true, n)

abbrev visitors : Visitors ℕ
visitors = (codes "10.0.0.1", record { limiter = 0; last_seen = 5 }) ∷ []

admit-isolates_example :
    let ip = codes "10.0.0.2" in
    let vs' = (admit 2 allow ip 7 visitors).1 in
    (find_visitor ip visitors ≡ none → IsAdmitted 2 allow 2 ip 7 visitors)
    × ((v : IpLimiter ℕ)
        → find_visitor ip visitors ≡ some v
        → IsAdmitted 2 allow v.limiter ip 7 visitors)
    × ((other : Text) → other ≢ ip → find_visitor other vs' ≡ find_visitor other visitors)
    × IsDistinct vs'
    × IsDistinct (clean_up 7 visitors)
    × ((other : Text)
        → find_visitor other (clean_up 7 visitors) ≡ kept 7 (find_visitor other visitors))
unfolding find_visitor
admit-isolates_example = admit-isolates 2 allow (codes "10.0.0.2") 7 visitors (refl, tt)
