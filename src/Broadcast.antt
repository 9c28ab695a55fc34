-- ===== src/Broadcast.antt =====
-- pkg/broadcaster/broadcaster.go: the events and the channels of the SSE listeners.
-- A listener's channel is named by a number; `open` is its buffer, oldest event first.
pub mod Delivery
pub mod Listeners
pub mod Reach
mod Examples
use quant_indonesia_scraping.Prelude.{
  ℕ, suc, ◌+◌, Bool, true, false, ◌||◌, Option, none, some, List, [], ◌∷◌, ◌++◌, map, Text, codes,
  text_eq, is_empty, length, ltb, ◌==◌, if◌then◌else◌, is_nil, member,
}

pub record IngestionEvent (F : Type 0) : Type 0 where
  pub kind : Text  -- the field Type
  pub stage : Text
  pub current : ℕ
  pub total : ℕ
  pub message : Text
  pub ticker : Text
  pub sentiment : Text
  pub score : Option F
  pub timestamp : Text

-- An event with the fields that most calls of Broadcast give.
abbrev pub event : {F : Type 0} → Text → Text → ℕ → ℕ → Text → IngestionEvent F
event kind stage current total message = record {
  kind = kind;
  stage = stage;
  current = current;
  total = total;
  message = message;
  ticker = [];
  sentiment = [];
  score = none;
  timestamp = [];
}

-- A channel of capacity 500 that a listener reads.
pub record Channel (F : Type 0) : Type 0 where
  pub id : ℕ
  pub buffer : List (IngestionEvent F)

abbrev pub capacity : ℕ
capacity = 500

-- `clients` is the map, whose keys are the channels; `closed` names the channels closed so far.
pub record Broadcaster (F : Type 0) : Type 0 where
  pub clients : List (Channel F)
  pub closed : List ℕ
  pub next : ℕ

pub new_broadcaster : (F : Type 0) → Broadcaster F
new_broadcaster F = record { clients = []; closed = []; next = 0 }

-- `none` is a panic: close of a closed channel.
pub data Outcome (A : Type 0) : Type 0 where
  returned : A → Outcome A
  panicked : Outcome A

module _ {F : Type 0} where
  pub subscribe : Broadcaster F → Channel F × Broadcaster F
  subscribe b =
      let ch : Channel F = record { id = b.next; buffer = [] } in
      (ch, record b { clients = b.clients ++ (ch ∷ []); next = b.next + 1 })

  pub delete : ℕ → List (Channel F) → List (Channel F)
  delete n [] = []
  delete n (c ∷ cs) = let rest = delete n cs in if c.id == n then rest else c ∷ rest

  pub unsubscribe : ℕ → Broadcaster F → Outcome (Broadcaster F)
  unfolding delete member
  unsubscribe n b =
      if member n b.closed
      then panicked
      else returned (record b { clients = delete n b.clients; closed = n ∷ b.closed })

  abbrev pub drain : Channel F → Channel F
  drain c = elim c.buffer [ [] ↦ c | e ∷ es ↦ record c { buffer = es } ]

  -- The Handler's receive on its channel: it takes the oldest event out.
  pub receive : ℕ → List (Channel F) → List (Channel F)
  receive n [] = []
  receive n (c ∷ cs) = if c.id == n then drain c ∷ cs else c ∷ receive n cs

  pub is_critical : IngestionEvent F → Bool
  is_critical e =
      text_eq e.kind (codes "start")
      || text_eq e.kind (codes "done")
      || text_eq e.kind (codes "cancelled")
      || text_eq e.kind (codes "error")

  -- `ch <- event` on a channel with room; `none` where the buffer is full.
  pub offer : IngestionEvent F → Channel F → Option (Channel F)
  offer e c =
      if ltb (length c.buffer) capacity
      then some (record c { buffer = c.buffer ++ (e ∷ []) })
      else none

  -- The `select` for a critical event. While it waits on a full channel the listener may take
  -- events out: `room` says whether it took the oldest one within the 100 ms.
  abbrev kept : Option (Channel F) → Channel F → Channel F
  kept none c = c
  kept (some c') c = c'

  pub send_critical : Bool → IngestionEvent F → Channel F → Channel F
  unfolding offer
  send_critical room e c = elim (offer e c) [
    | some c' ↦ c'
    | none ↦ if room then kept (offer e (drain c)) (drain c) else c
  ]

  pub send_progress : IngestionEvent F → Channel F → Channel F
  unfolding offer
  send_progress e c = kept (offer e c) c

  pub send : (ℕ → Bool) → IngestionEvent F → Channel F → Channel F
  unfolding send_critical send_progress
  send room e c = if is_critical e then send_critical (room c.id) e c else send_progress e c

  -- `now` is the clock as Broadcast formats it; `room` is what the listeners do meanwhile.
  pub stamp : Text → IngestionEvent F → IngestionEvent F
  stamp now e = if is_empty e.timestamp then record e { timestamp = now } else e

  pub broadcast : Text → (ℕ → Bool) → IngestionEvent F → Broadcaster F → Broadcaster F
  broadcast now room e b = record b { clients = map (send room (stamp now e)) b.clients }
