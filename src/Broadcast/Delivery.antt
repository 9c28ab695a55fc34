-- ===== src/Broadcast/Delivery.antt =====
-- What Broadcast does to the buffer of each listener.
use quant_indonesia_scraping.Prelude.{
  ℕ, ◌+◌, ◌≤◌, ◌<◌, ◌≡◌, Bool, ◌&&◌, List, [], ◌∷◌, ◌++◌, length, length-append, ltb, if◌then◌else◌,
  arith,
}
use quant_indonesia_scraping.Broadcast.{
  IngestionEvent, Channel, capacity, offer, is_critical, send, send_critical, send_progress,
}

module _ {F : Type 0} where
  abbrev pub tail : List (IngestionEvent F) → List (IngestionEvent F)
  tail [] = []
  tail (e ∷ es) = es

  -- The buffer after an event: it is queued last where there is room, a critical event also where
  -- the listener makes room in time; else it is dropped, and what was queued stays.
  abbrev pub queued : Bool → IngestionEvent F → List (IngestionEvent F) → List (IngestionEvent F)
  queued room e buffer =
      if ltb (length buffer) capacity
      then buffer ++ (e ∷ [])
      else if is_critical e && room
      then tail buffer ++ (e ∷ [])
      else buffer

  length-tail : (es : List (IngestionEvent F)) → 0 < length es → length (tail es) + 1 ≡ length es
  length-tail [] h = elim h [ ]
  length-tail (e ∷ es) h = omega arith

  send_buffer :
      (room : ℕ → Bool) (e : IngestionEvent F) (n : ℕ) (es : List (IngestionEvent F))
      → length es ≤ capacity
      → send room e (record { id = n; buffer = es })
        ≡ record { id = n; buffer = queued (room n) e es }
  unfolding send send_critical send_progress offer
  send_buffer room e n [] h = ground arith
  send_buffer room e n (x ∷ es) h = ground arith

  -- A send appends to the buffer, drops the event, or appends after the listener took one out.
  pub send-queued :
      (room : ℕ → Bool) (e : IngestionEvent F) (c : Channel F)
      → length c.buffer ≤ capacity
      → send room e c ≡ record c { buffer = queued (room c.id) e c.buffer }
  send-queued room e c h = send_buffer room e c.id c.buffer h

  pub queued-le :
      (room : Bool) (e : IngestionEvent F) (es : List (IngestionEvent F))
      → length es ≤ capacity
      → length (queued room e es) ≤ capacity
  queued-le room e es h =
      ground (arith, length-append es (e ∷ []), length-append (tail es) (e ∷ []), length-tail es)
