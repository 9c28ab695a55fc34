-- ===== src/Broadcast/Listeners.antt =====
-- The listeners' map and their buffers over any sequence of operations.
use quant_indonesia_scraping.Prelude.{
  ℕ, suc, ◌+◌, ◌≤◌, ◌<◌, ◌≡◌, refl, Bool, true, false, List, [], ◌∷◌, ◌++◌, map, Text, length, ◌==◌,
  arith, Bool-cases, inl, inr, All, All-append, member, below_member, below_weaken,
}
use quant_indonesia_scraping.Broadcast.{
  IngestionEvent, Channel, Broadcaster, capacity, returned, subscribe, unsubscribe, delete, send,
  stamp, broadcast,
}
use quant_indonesia_scraping.Broadcast.Delivery.{queued-le, send-queued}

module _ {F : Type 0} where
  -- The channels have different names, all below `top`, in the order of their subscriptions.
  abbrev pub Ordered : ℕ → ℕ → List (Channel F) → Type 0
  Ordered low top [] = low ≤ top
  Ordered low top (c ∷ cs) = (low ≤ c.id) × Ordered (suc c.id) top cs

  -- A buffer within its capacity, of a channel that is not closed.
  abbrev pub IsLive : List ℕ → Channel F → Type 0
  IsLive closed c = (length c.buffer ≤ capacity) × (member c.id closed ≡ false)

  pub record IsValid (b : Broadcaster F) : Type 0 where
    pub ordered : Ordered 0 b.next b.clients
    pub live : All (IsLive b.closed) b.clients
    pub old : All (λ n. n < b.next) b.closed

  Ordered-le : (low top : ℕ) (cs : List (Channel F)) → Ordered low top cs → low ≤ top
  Ordered-le low top [] h = h
  Ordered-le low top (c ∷ cs) h = omega (arith, Ordered-le (suc c.id) top cs h.1)

  Ordered-weaken :
      (low high top : ℕ) (cs : List (Channel F))
      → low ≤ high
      → Ordered high top cs
      → Ordered low top cs
  Ordered-weaken low high top [] k h = omega arith
  Ordered-weaken low high top (c ∷ cs) k h = (omega arith, h.1)

  send-IsLive :
      (room : ℕ → Bool) (e : IngestionEvent F) (closed : List ℕ) (c : Channel F)
      → IsLive closed c
      → IsLive closed (send room e c)
  send-IsLive room e closed c h =
      rw (send-queued room e c h.0) (queued-le (room c.id) e c.buffer h.0, h.1)

  send-id :
      (room : ℕ → Bool) (e : IngestionEvent F) (c : Channel F)
      → length c.buffer ≤ capacity
      → (send room e c).id ≡ c.id
  send-id room e c h = rw (send-queued room e c h)

  map-send-IsLive :
      (room : ℕ → Bool) (e : IngestionEvent F) (closed : List ℕ) (cs : List (Channel F))
      → All (IsLive closed) cs
      → All (IsLive closed) (map (send room e) cs)
  map-send-IsLive room e closed [] h = tt
  map-send-IsLive room e closed (c ∷ cs) h =
      (send-IsLive room e closed c h.0, map-send-IsLive room e closed cs h.1)

  map-send-Ordered :
      (room : ℕ → Bool) (e : IngestionEvent F) (closed : List ℕ) (low top : ℕ)
      (cs : List (Channel F))
      → All (IsLive closed) cs
      → Ordered low top cs
      → Ordered low top (map (send room e) cs)
  map-send-Ordered room e closed low top [] l h = h
  map-send-Ordered room e closed low top (c ∷ cs) l h =
      rw (send-id room e c l.0.0) (h.0, map-send-Ordered room e closed (suc c.id) top cs l.1 h.1)

  pub broadcast-IsValid :
      (now : Text) (room : ℕ → Bool) (e : IngestionEvent F) {b : Broadcaster F}
      → IsValid b
      → IsValid (broadcast now room e b)
  unfolding broadcast
  broadcast-IsValid now room e {b} v = record {
    ordered = map-send-Ordered room (stamp now e) b.closed 0 b.next b.clients v.live v.ordered;
    live = map-send-IsLive room (stamp now e) b.closed b.clients v.live;
    old = v.old;
  }

  Ordered-append :
      (low top : ℕ) (cs : List (Channel F)) (c : Channel F)
      → c.id ≡ top
      → low ≤ top
      → Ordered low top cs
      → Ordered low (top + 1) (cs ++ (c ∷ []))
  Ordered-append low top [] c e k h = (omega arith, omega arith)
  Ordered-append low top (x ∷ cs) c e k h =
      (h.0, Ordered-append (suc x.id) top cs c e (Ordered-le (suc x.id) top cs h.1) h.1)

  pub subscribe-IsValid : {b : Broadcaster F} → IsValid b → IsValid (subscribe b).1
  unfolding subscribe
  subscribe-IsValid {b} v =
      let ch : Channel F = record { id = b.next; buffer = [] } in
      record {
        ordered = Ordered-append 0 b.next b.clients ch refl (omega arith) v.ordered;
        live =
            All-append (IsLive b.closed) b.clients (ch ∷ []) v.live
              ((omega arith, below_member b.next b.next b.closed v.old (omega arith)), tt);
        old = below_weaken b.next b.closed v.old;
      }

  delete-Ordered :
      (n low top : ℕ) (cs : List (Channel F)) → Ordered low top cs → Ordered low top (delete n cs)
  unfolding delete
  delete-Ordered n low top [] h = h
  delete-Ordered n low top (c ∷ cs) h =
      let rest = delete-Ordered n (suc c.id) top cs h.1 in
      elim (Bool-cases (c.id == n)) [
        | inl e ↦ rw e (Ordered-weaken low (suc c.id) top (delete n cs) (omega arith) rest)
        | inr e ↦ rw e (h.0, rest)
      ]

  delete-IsLive :
      (n : ℕ) (closed : List ℕ) (cs : List (Channel F))
      → All (IsLive closed) cs
      → All (IsLive (n ∷ closed)) (delete n cs)
  unfolding delete member
  delete-IsLive n closed [] h = tt
  delete-IsLive n closed (c ∷ cs) h =
      let rest = delete-IsLive n closed cs h.1 in
      elim (Bool-cases (c.id == n)) [
        | inl e ↦ rw e rest
        | inr e ↦ rw e ((h.0.0, ground (arith, h.0.1)), rest)
      ]

  -- The listener is one of the clients.
  unfoldable pub listens : ℕ → List (Channel F) → Bool
  listens n [] = false
  listens n (c ∷ cs) = elim (c.id == n) [ true ↦ true | false ↦ listens n cs ]

  listens-open :
      (n : ℕ) (closed : List ℕ) (cs : List (Channel F))
      → All (IsLive closed) cs
      → listens n cs ≡ true
      → member n closed ≡ false
  unfolding listens
  listens-open n closed [] h l = cc
  listens-open n closed (c ∷ cs) h l = ground (arith, listens-open n closed cs h.1)

  listens-below :
      (n low top : ℕ) (cs : List (Channel F)) → Ordered low top cs → listens n cs ≡ true → n < top
  unfolding listens
  listens-below n low top [] h l = cc
  listens-below n low top (c ∷ cs) h l =
      ground (arith, listens-below n (suc c.id) top cs h.1, Ordered-le (suc c.id) top cs h.1)

  listens-delete : (n low top : ℕ) (cs : List (Channel F)) → listens n (delete n cs) ≡ false
  unfolding listens delete
  listens-delete n low top [] = refl
  listens-delete n low top (c ∷ cs) = ground (arith, listens-delete n low top cs)

  -- A subscribed listener of a valid broadcaster leaves without a panic: its channel is closed, it
  -- is no client any more, and the broadcaster stays valid.
  pub unsubscribe_ok :
      (n : ℕ) (b : Broadcaster F)
      → IsValid b
      → listens n b.clients ≡ true
      → (b' : Broadcaster F) × (unsubscribe n b ≡ returned b')
        × IsValid b'
        × (listens n b'.clients ≡ false)
        × (member n b'.closed ≡ true)
  unfolding unsubscribe member
  unsubscribe_ok n b v l = (
    record b { clients = delete n b.clients; closed = n ∷ b.closed },
    rw (listens-open n b.closed b.clients v.live l) refl,
    record {
      ordered = delete-Ordered n 0 b.next b.clients v.ordered;
      live = delete-IsLive n b.closed b.clients v.live;
      old = (listens-below n 0 b.next b.clients v.ordered l, v.old);
    },
    listens-delete n 0 b.next b.clients,
    ground arith,
  )
