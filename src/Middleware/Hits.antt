-- ===== src/Middleware/Hits.antt =====
-- What is answered from the cache is what the handler answered before.
use quant_indonesia_scraping.Prelude.{
  ℕ, ◌≡◌, refl, true, false, ◌&&◌, none, some, [], ◌∷◌, Text, codes, is_empty, text_eq, leb, ltb,
}
use quant_indonesia_scraping.Middleware.{
  CacheRequest, build_cache_key, Outcome, wrote, CacheClient, bypassed, to_store, missed, looked_up,
  cached_handler, settle,
}

-- A server of which a SET is seen by the GET of its key.
pub record IsRecalling {C : Type 0} (client : CacheClient C) : Type 0 where
  pub recalls :
      (c c' : C) (key body : Text) (ttl : ℕ)
      → client.set c key body ttl ≡ some c'
      → client.get c' key ≡ some body

module _ {S C : Type 0} (next : S → Outcome × S) (client : CacheClient C) where
  -- Requests other than GET, and all where there is no cache, go to the handler and store nothing.
  pub cached_handler-bypass :
      (c : C) (r : CacheRequest) (s : S)
      → (cached_handler next {C = C} none c r s ≡ bypassed next s)
        × (text_eq r.method (codes "GET") ≡ false
            → cached_handler next (some client) c r s ≡ bypassed next s)
  unfolding cached_handler
  cached_handler-bypass c r s = (refl, λ h. rw h refl)

  found :
      (c : C) (r : CacheRequest) (t : S) (body : Text)
      → text_eq r.method (codes "GET") ≡ true
      → client.get c (build_cache_key r) ≡ some body
      → is_empty body ≡ false
      → cached_handler next (some client) c r t ≡ record {
        outcome = wrote 200 body;
        x_cache = some (codes "HIT");
        state = t;
        pending = none;
      }
  unfolding cached_handler looked_up
  found c r t [] get e filled = cc
  found c r t (b ∷ body) get e filled = rw get (rw e refl)

  first_time :
      (c c' : C) (r : CacheRequest) (s s' : S) (status ttl : ℕ) (body : Text)
      → text_eq r.method (codes "GET") ≡ true
      → client.get c (build_cache_key r) ≡ none
      → next s ≡ (wrote status body, s')
      → client.set c (build_cache_key r) body ttl ≡ some c'
      → let first = cached_handler next (some client) c r s in
        (first.outcome ≡ wrote status body)
        × (first.state ≡ s')
        × ((leb 200 status && ltb status 300) ≡ true → settle client ttl first.pending c ≡ c')
        × ((leb 200 status && ltb status 300) ≡ false → first.pending ≡ none)
  unfolding cached_handler looked_up missed to_store settle
  first_time c c' r s s' status ttl body get miss answer stored =
      rw get (rw miss (rw answer (refl, refl, (λ ok. rw ok (rw stored refl)), λ bad. rw bad refl)))

  -- A GET that misses the cache and is answered with a status from 200 to 299 and a body is, once the
  -- body was stored by a server that recalls it, answered from the cache: with the status 200, the
  -- same body and without the handler. An answer with another status is not stored.
  pub cached_handler-hit :
      (recalling : IsRecalling client) (c c' : C) (r : CacheRequest) (s s' t : S) (status ttl : ℕ)
      (body : Text)
      → text_eq r.method (codes "GET") ≡ true
      → client.get c (build_cache_key r) ≡ none
      → next s ≡ (wrote status body, s')
      → is_empty body ≡ false
      → client.set c (build_cache_key r) body ttl ≡ some c'
      → let first = cached_handler next (some client) c r s in
        (first.outcome ≡ wrote status body)
        × (first.state ≡ s')
        × ((leb 200 status && ltb status 300) ≡ true
            → (settle client ttl first.pending c ≡ c')
              × (cached_handler next (some client) c' r t ≡ record {
                outcome = wrote 200 body;
                x_cache = some (codes "HIT");
                state = t;
                pending = none;
              }))
        × ((leb 200 status && ltb status 300) ≡ false → first.pending ≡ none)
  cached_handler-hit recalling c c' r s s' t status ttl body get miss answer filled stored =
      let (outcome, state, kept, dropped) =
        first_time c c' r s s' status ttl body get miss answer stored in
      let recalled = recalling.recalls c c' (build_cache_key r) body ttl stored in
      (outcome, state, (λ ok. (kept ok, found c' r t body get recalled filled)), dropped)
