-- ===== src/IngestionHandler/Exclusion.antt =====
-- As long as nobody cancels, the lock keeps ingestion runs apart.
use quant_indonesia_scraping.Prelude.{
  ℕ, ◌≡◌, ◌⊎◌, refl, true, none, some, List, [], ◌∷◌, length, member, arith, inl, inr,
}
use quant_indonesia_scraping.IngestionHandler.{
  Response, accepted, conflict, success, FeedInput, TriggerRequest, Server, idle, acquire, trigger,
  reprocess, remove, finish,
}

-- The servers that requests and ends of runs lead to, without a Cancel.
pub data Calm : Server → Type 0 where
  start : Calm idle
  triggers : {s : Server} (req : TriggerRequest) → Calm s → Calm (trigger req s).1
  reprocesses : {s : Server} → Calm s → Calm (reprocess s).1
  ends : {s : Server} (r : ℕ) → member r s.running ≡ true → Calm s → Calm (finish r s)

-- Nothing runs and the lock is free, or one run has the lock.
abbrev pub IsExclusive : Server → Type 0
IsExclusive s =
    ((s.running ≡ []) × (s.current_cancel ≡ none))
    ⊎ ((r : ℕ) × (s.running ≡ r ∷ []) × (s.current_cancel ≡ some r))

acquire-IsExclusive :
    (answer : Response) (s : Server) → IsExclusive s → IsExclusive (acquire answer s).1
unfolding acquire
acquire-IsExclusive answer s (inl h) = inr (s.next, ground arith, ground arith)
acquire-IsExclusive answer s (inr (r, h, k)) = inr (r, ground arith, ground arith)

finish-IsExclusive :
    (r : ℕ) (s : Server) → member r s.running ≡ true → IsExclusive s → IsExclusive (finish r s)
unfolding finish remove member
finish-IsExclusive r s m (inl h) = ground arith
finish-IsExclusive r s m (inr (q, h, k)) = inl (ground arith, refl)

trigger-IsExclusive :
    (req : TriggerRequest) (s : Server) → IsExclusive s → IsExclusive (trigger req s).1
unfolding trigger
trigger-IsExclusive none s h = h
trigger-IsExclusive (some []) s h = h
trigger-IsExclusive (some (f ∷ fs)) s h = acquire-IsExclusive accepted s h

-- Without a Cancel the lock is free exactly when nothing runs, and else names the one run there is.
pub Calm-IsExclusive : {s : Server} → Calm s → IsExclusive s
unfolding idle reprocess
Calm-IsExclusive start = inl (refl, refl)
Calm-IsExclusive (triggers {s} req c) = trigger-IsExclusive req s (Calm-IsExclusive c)
Calm-IsExclusive (reprocesses {s} c) = acquire-IsExclusive success s (Calm-IsExclusive c)
Calm-IsExclusive (ends {s} r m c) = finish-IsExclusive r s m (Calm-IsExclusive c)

-- Without a Cancel a request with feeds is refused with 409 exactly while a run is in progress; it
-- then changes nothing, and else starts the only run.
pub trigger-conflict :
    {s : Server} (f : FeedInput) (fs : List FeedInput)
    → Calm s
    → let (status, t) = trigger (some (f ∷ fs)) s in
      ((status ≡ conflict) × (length s.running ≡ 1) × (t ≡ s))
      ⊎ ((status ≡ accepted) × (s.running ≡ []) × (t.running ≡ s.next ∷ []))
unfolding trigger acquire
trigger-conflict f fs c = ground (arith, Calm-IsExclusive c)
