-- ===== src/Broadcast/Reach.antt =====
-- Any sequence of subscriptions, departures, broadcasts and receives.
use mathlib.Core.Path.{subst}
use quant_indonesia_scraping.Prelude.{
  ℕ, suc, ◌≤◌, ◌≡◌, refl, ap, sym, ◌∙◌, Bool, true, false, Option, none, some, List, [], ◌∷◌, map,
  Text, length, ◌==◌, arith, Bool-cases, inl, inr, All,
}
use quant_indonesia_scraping.Broadcast.{
  IngestionEvent, Channel, Broadcaster, Outcome, returned, panicked, new_broadcaster, subscribe,
  unsubscribe, receive, drain, send, stamp, broadcast,
}
use quant_indonesia_scraping.Broadcast.Delivery.{queued, send-queued}
use quant_indonesia_scraping.Broadcast.Listeners.{
  Ordered, IsLive, IsValid, listens, subscribe-IsValid, broadcast-IsValid, unsubscribe_ok,
}

module _ {F : Type 0} where
  length-drain : (c : Channel F) → length (drain c).buffer ≤ length c.buffer
  length-drain c = drained c.id c.buffer
    where
      drained :
          (n : ℕ) (es : List (IngestionEvent F))
          → length (drain (record { id = n; buffer = es })).buffer ≤ length es
      drained n [] = omega arith
      drained n (e ∷ es) = omega arith

  drain-id : (c : Channel F) → (drain c).id ≡ c.id
  drain-id c = drained c.id c.buffer
    where
      drained :
          (n : ℕ) (es : List (IngestionEvent F)) → (drain (record { id = n; buffer = es })).id ≡ n
      drained n [] = refl
      drained n (e ∷ es) = refl

  receive-Ordered :
      (n low top : ℕ) (cs : List (Channel F)) → Ordered low top cs → Ordered low top (receive n cs)
  unfolding receive
  receive-Ordered n low top [] h = h
  receive-Ordered n low top (c ∷ cs) h = elim (Bool-cases (c.id == n)) [
    | inl e ↦ rw (e, drain-id c) h
    | inr e ↦ rw e (h.0, receive-Ordered n (suc c.id) top cs h.1)
  ]

  receive-IsLive :
      (n : ℕ) (closed : List ℕ) (cs : List (Channel F))
      → All (IsLive closed) cs
      → All (IsLive closed) (receive n cs)
  unfolding receive
  receive-IsLive n closed [] h = tt
  receive-IsLive n closed (c ∷ cs) h = elim (Bool-cases (c.id == n)) [
    | inl e ↦ rw e ((omega (arith, length-drain c, h.0.0), rw (drain-id c) h.0.1), h.1)
    | inr e ↦ rw e (h.0, receive-IsLive n closed cs h.1)
  ]

  pub data Step (b : Broadcaster F) : Broadcaster F → Type 0 where
    joins : Step b (subscribe b).1
    leaves :
        (n : ℕ) (c : Broadcaster F)
        → listens n b.clients ≡ true
        → unsubscribe n b ≡ returned c
        → Step b c
    sends : (now : Text) (room : ℕ → Bool) (e : IngestionEvent F) → Step b (broadcast now room e b)
    takes : (n : ℕ) → Step b (record b { clients = receive n b.clients })

  pub data Reach : Broadcaster F → Type 0 where
    start : Reach (new_broadcaster F)
    next : {b c : Broadcaster F} → Reach b → Step b c → Reach c

  result_or : Broadcaster F → Outcome (Broadcaster F) → Broadcaster F
  result_or b (returned c) = c
  result_or b panicked = b

  left_IsValid :
      (n : ℕ) (b c : Broadcaster F)
      → IsValid b
      → listens n b.clients ≡ true
      → unsubscribe n b ≡ returned c
      → IsValid c
  unfolding result_or
  left_IsValid n b c v l e =
      let (c', e', v', gone, shut) = unsubscribe_ok n b v l in
      subst IsValid (ap (result_or b) (sym e' ∙ e)) v'

  Step-IsValid : {b c : Broadcaster F} → IsValid b → Step b c → IsValid c
  Step-IsValid v joins = subscribe-IsValid v
  Step-IsValid {b} v (leaves n c l e) = left_IsValid n b c v l e
  Step-IsValid v (sends now room e) = broadcast-IsValid now room e v
  Step-IsValid {b} v (takes n) = record {
    ordered = receive-Ordered n 0 b.next b.clients v.ordered;
    live = receive-IsLive n b.closed b.clients v.live;
    old = v.old;
  }

  -- However listeners come, go and read, every buffer stays within its capacity of 500, no client's
  -- channel is closed, and no two clients have the same channel.
  pub Reach-IsValid : {b : Broadcaster F} → Reach b → IsValid b
  unfolding new_broadcaster
  Reach-IsValid start = record { ordered = omega arith; live = tt; old = tt }
  Reach-IsValid (next r s) = Step-IsValid (Reach-IsValid r) s

  -- The buffer of a listener.
  abbrev pub buffer_of : ℕ → List (Channel F) → Option (List (IngestionEvent F))
  buffer_of n [] = none
  buffer_of n (c ∷ cs) = elim (c.id == n) [ true ↦ some c.buffer | false ↦ buffer_of n cs ]

  abbrev pub queue_if :
      Bool → IngestionEvent F → Option (List (IngestionEvent F)) → Option (List (IngestionEvent F))
  queue_if room e none = none
  queue_if room e (some es) = some (queued room e es)

  buffer_of-send :
      (n : ℕ) (room : ℕ → Bool) (e : IngestionEvent F) (closed : List ℕ) (cs : List (Channel F))
      → All (IsLive closed) cs
      → buffer_of n (map (send room e) cs) ≡ queue_if (room n) e (buffer_of n cs)
  buffer_of-send n room e closed [] h = refl
  buffer_of-send n room e closed (c ∷ cs) h =
      rw (send-queued room e c h.0.0) (ground (arith, buffer_of-send n room e closed cs h.1))

  -- In a reachable broadcaster a Broadcast reaches every listener by itself, whatever the others
  -- do: its buffer gets the stamped event last, or, where it is full, keeps what it has; a critical
  -- event is queued also where the listener makes room in time.
  pub broadcast-delivers :
      (now : Text) (room : ℕ → Bool) (e : IngestionEvent F) (b : Broadcaster F) (n : ℕ)
      → Reach b
      → buffer_of n (broadcast now room e b).clients
        ≡ queue_if (room n) (stamp now e) (buffer_of n b.clients)
  unfolding broadcast
  broadcast-delivers now room e b n r =
      buffer_of-send n room (stamp now e) b.closed b.clients (Reach-IsValid r).live
