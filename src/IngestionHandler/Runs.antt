-- ===== src/IngestionHandler/Runs.antt =====
-- The lock under Cancel: it names a live run, but a run that was cancelled goes on beside the next.
use quant_indonesia_scraping.Prelude.{
  ℕ, ◌<◌, ◌≡◌, ◌≢◌, refl, true, false, none, some, List, [], ◌∷◌, ◌==◌, member, below_member,
  below_weaken, member-below, All, arith, inl, inr, Option-cases, Bool-cases,
}
use quant_indonesia_scraping.IngestionHandler.{
  Response, accepted, success, FeedInput, TriggerRequest, Server, idle, acquire, trigger, reprocess,
  remove, finish, cancel,
}

-- The servers that any interleaving of requests, cancels and ends of runs leads to.
pub data Reach : Server → Type 0 where
  start : Reach idle
  triggers : {s : Server} (req : TriggerRequest) → Reach s → Reach (trigger req s).1
  reprocesses : {s : Server} → Reach s → Reach (reprocess s).1
  ends : {s : Server} (r : ℕ) → member r s.running ≡ true → Reach s → Reach (finish r s)
  cancels : {s : Server} → Reach s → Reach (cancel s).1

pub record IsSound (s : Server) : Type 0 where
  pub owner :
      (r : ℕ)
      → s.current_cancel ≡ some r
      → (member r s.running ≡ true) × (member r s.cancelled ≡ false)
  pub old_running : All (λ r. r < s.next) s.running
  pub old_cancelled : All (λ r. r < s.next) s.cancelled

acquire-IsSound : (answer : Response) (s : Server) → IsSound s → IsSound (acquire answer s).1
unfolding acquire member
acquire-IsSound answer s h = elim (Option-cases s.current_cancel) [
  | inl e ↦ rw e (record {
    owner = λ r own. ground (arith, below_member s.next s.next s.cancelled h.old_cancelled);
    old_running = (omega arith, below_weaken s.next s.running h.old_running);
    old_cancelled = below_weaken s.next s.cancelled h.old_cancelled;
  })
  | inr (r, e) ↦ simp e h
]

member-remove : (q r : ℕ) (rs : List ℕ) → q ≢ r → member q (remove r rs) ≡ member q rs
unfolding member remove
member-remove q r [] h = refl
member-remove q r (x ∷ rs) h = ground (arith, member-remove q r rs h)

below-remove : (top r : ℕ) (rs : List ℕ) → All (λ n. n < top) rs → All (λ n. n < top) (remove r rs)
unfolding remove
below-remove top r [] h = tt
below-remove top r (x ∷ rs) h = elim (Bool-cases (x == r)) [
  | inl e ↦ rw e (below-remove top r rs h.1)
  | inr e ↦ rw e (h.0, below-remove top r rs h.1)
]

finish-IsSound : (r : ℕ) (s : Server) → IsSound s → IsSound (finish r s)
unfolding finish
finish-IsSound r s h = record {
  owner = λ q own. cc;
  old_running = below-remove s.next r s.running h.old_running;
  old_cancelled = h.old_cancelled;
}

trigger-IsSound : (req : TriggerRequest) (s : Server) → IsSound s → IsSound (trigger req s).1
unfolding trigger
trigger-IsSound none s h = h
trigger-IsSound (some []) s h = h
trigger-IsSound (some (f ∷ fs)) s h = acquire-IsSound accepted s h

cancel-IsSound : (s : Server) → IsSound s → IsSound (cancel s).1
unfolding cancel
cancel-IsSound s h = elim (Option-cases s.current_cancel) [
  | inl e ↦ rw e h
  | inr (r, e) ↦ rw e (record {
    owner = λ q own. cc;
    old_running = h.old_running;
    old_cancelled =
        (member-below r s.next s.running h.old_running (h.owner r e).0, h.old_cancelled);
  })
]

-- Whatever is requested and whenever runs end, the lock, where it is held, names a run that is in
-- progress and was not cancelled, so that a Cancel stops a live run.
pub Reach-IsSound : {s : Server} → Reach s → IsSound s
unfolding idle reprocess
Reach-IsSound start = record { owner = λ r e. cc; old_running = tt; old_cancelled = tt }
Reach-IsSound (triggers {s} req c) = trigger-IsSound req s (Reach-IsSound c)
Reach-IsSound (reprocesses {s} c) = acquire-IsSound success s (Reach-IsSound c)
Reach-IsSound (ends {s} r m c) = finish-IsSound r s (Reach-IsSound c)
Reach-IsSound (cancels {s} c) = cancel-IsSound s (Reach-IsSound c)

-- The server after a Cancel, a new Trigger, and the end of the cancelled run `r`.
abbrev pub restarted : FeedInput → List FeedInput → Server → Server
restarted f fs s = (trigger (some (f ∷ fs)) (cancel s).1).1

-- Cancel gives the lock up at once: while the cancelled run `r` goes on, a new Trigger is accepted
-- and runs beside it. The end of `r` then takes the lock from the new run, which is still in
-- progress: a Cancel cannot reach it any more.
pub cancel_loses_lock :
    {s : Server} (r : ℕ) (f : FeedInput) (fs : List FeedInput)
    → Reach s
    → s.current_cancel ≡ some r
    → let t = restarted f fs s in
      ((trigger (some (f ∷ fs)) (cancel s).1).0 ≡ accepted)
      × (member r t.running ≡ true)
      × (member s.next t.running ≡ true)
      × (r ≢ s.next)
      × ((finish r t).current_cancel ≡ none)
      × (member s.next (finish r t).running ≡ true)
      × ((cancel (finish r t)).1 ≡ finish r t)
unfolding trigger acquire cancel finish member
cancel_loses_lock {s} r f fs c e =
    let sound = Reach-IsSound c in
    let live = (sound.owner r e).0 in
    let older = member-below r s.next s.running sound.old_running live in
    ground (arith, live, older, member-remove s.next r (s.next ∷ s.running))
