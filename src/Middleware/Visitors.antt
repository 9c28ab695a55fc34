-- ===== src/Middleware/Visitors.antt =====
-- The limiter treats each address by itself, and the cleanup forgets only those not seen for long.
use mathlib.Core.Path.{subst}
use quant_indonesia_scraping.Prelude.{
  ℕ, zero, suc, ◌+◌, ◌-◌, ◌/◌, ◌≤◌, ◌≡◌, ◌≢◌, refl, sym, ap, ◌∙◌, Bool, true, false, Option, none,
  some, [], ◌∷◌, Text, codes, text_eq, text_eq→eq, text_eq_refl, ltb, leb, ◌==◌, ℤ, pos, negsuc,
  decimal_digits, Bool-cases, inl, inr, arith, if◌then◌else◌,
}
use quant_indonesia_scraping.Middleware.{
  stale_threshold, IpLimiter, Visitors, find_visitor, put_visitor, limiter_of, admit, clean_up,
  whole_seconds, retry_after,
}

module _ {L : Type 0} where
  find_visitor-put :
      (ip : Text) (v : IpLimiter L) (vs : Visitors L)
      → find_visitor ip (put_visitor ip v vs) ≡ some v
  unfolding find_visitor put_visitor
  find_visitor-put ip v [] = rw (text_eq_refl ip) refl
  find_visitor-put ip v ((k, w) ∷ vs) = elim (Bool-cases (text_eq k ip)) [
    | inl e ↦ rw (e, put_visitor, find_visitor) (rw e refl)
    | inr e ↦ rw (e, put_visitor, find_visitor) (rw e (find_visitor-put ip v vs))
  ]

  find_visitor-other :
      (ip other : Text) (v : IpLimiter L) (vs : Visitors L)
      → other ≢ ip
      → find_visitor other (put_visitor ip v vs) ≡ find_visitor other vs
  unfolding find_visitor put_visitor
  find_visitor-other ip other v [] h = elim (Bool-cases (text_eq ip other)) [
    | inl e ↦ absurd (h (sym (text_eq→eq ip other e)))
    | inr e ↦ rw (e, find_visitor) refl
  ]
  find_visitor-other ip other v ((k, w) ∷ vs) h = elim (Bool-cases (text_eq k ip)) [
    | inl e ↦
        rw (e, put_visitor, find_visitor)
          (elim (Bool-cases (text_eq k other)) [
            | inl e' ↦ absurd (h (sym (text_eq→eq k other e') ∙ text_eq→eq k ip e))
            | inr e' ↦ rw e' refl
          ])
    | inr e ↦ rw (e, put_visitor, find_visitor) (rw (find_visitor-other ip other v vs h) refl)
  ]

  -- No address stands twice.
  abbrev pub IsDistinct : Visitors L → Type 0
  IsDistinct [] = Unit
  IsDistinct ((k, v) ∷ vs) = (find_visitor k vs ≡ none) × IsDistinct vs

  put_visitor-IsDistinct :
      (ip : Text) (v : IpLimiter L) (vs : Visitors L)
      → IsDistinct vs
      → IsDistinct (put_visitor ip v vs)
  unfolding put_visitor find_visitor
  put_visitor-IsDistinct ip v [] h = (refl, tt)
  put_visitor-IsDistinct ip v ((k, w) ∷ vs) (new, h) = elim (Bool-cases (text_eq k ip)) [
    | inl e ↦ rw (e, put_visitor) (new, h)
    | inr e ↦
        rw (e, put_visitor)
          (
            find_visitor-other ip k v vs (λ same. cc (e, text_eq_refl ip, same)) ∙ new,
            put_visitor-IsDistinct ip v vs h,
          )
  ]

  -- The visitor is kept if it was seen within the last three minutes, and else forgotten.
  abbrev pub kept : ℕ → Option (IpLimiter L) → Option (IpLimiter L)
  kept now none = none
  kept now (some v) = if leb now (v.last_seen + 180_000_000_000) then some v else none

  kept_old :
      (now : ℕ) (v : IpLimiter L)
      → ltb stale_threshold (now - v.last_seen) ≡ true
      → kept now (some v) ≡ none
  kept_old now v h = ground arith

  kept_seen :
      (now : ℕ) (v : IpLimiter L)
      → ltb stale_threshold (now - v.last_seen) ≡ false
      → kept now (some v) ≡ some v
  kept_seen now v h = ground arith

  find_visitor-clean_up :
      (now : ℕ) (ip : Text) (vs : Visitors L)
      → IsDistinct vs
      → find_visitor ip (clean_up now vs) ≡ kept now (find_visitor ip vs)
  unfolding find_visitor clean_up
  find_visitor-clean_up now ip [] h = refl
  find_visitor-clean_up now ip ((k, v) ∷ vs) (new, h) =
      let rest = find_visitor-clean_up now ip vs h in
      elim (Bool-cases (text_eq k ip)) [
        | inl e ↦ elim (Bool-cases (ltb stale_threshold (now - v.last_seen))) [
          | inl old ↦
              rw (old, clean_up)
                (rw e (
                  rest
                  ∙ ap (kept now) (subst (λ i. find_visitor i vs ≡ none) (text_eq→eq k ip e) new)
                  ∙ sym (kept_old now v old)))
          | inr seen ↦ rw (seen, clean_up) (rw e (sym (kept_seen now v seen)))
        ]
        | inr e ↦ elim (Bool-cases (ltb stale_threshold (now - v.last_seen))) [
          | inl old ↦ rw (old, clean_up) (rw e rest)
          | inr seen ↦ rw (seen, clean_up) (rw e rest)
        ]
      ]

  clean_up-IsDistinct : (now : ℕ) (vs : Visitors L) → IsDistinct vs → IsDistinct (clean_up now vs)
  unfolding clean_up
  clean_up-IsDistinct now [] h = tt
  clean_up-IsDistinct now ((k, v) ∷ vs) (new, h) =
      elim (Bool-cases (ltb stale_threshold (now - v.last_seen))) [
        | inl old ↦ rw (old, clean_up) (clean_up-IsDistinct now vs h)
        | inr seen ↦
            rw (seen, clean_up)
              (find_visitor-clean_up now k vs h ∙ ap (kept now) new, clean_up-IsDistinct now vs h)
      ]

module _ {L : Type 0} (fresh : L) (allow : ℕ → L → Bool × L) where
  -- What admit does where `l` is the address's bucket: the bucket decides, and is stored with the time.
  abbrev pub IsAdmitted : L → Text → ℕ → Visitors L → Type 0
  IsAdmitted l ip now vs =
      let (allowed, l') = allow now l in
      let (admitted, vs') = admit fresh allow ip now vs in
      (admitted ≡ allowed) × (find_visitor ip vs' ≡ some (record { limiter = l'; last_seen = now }))

  bucket-IsAdmitted :
      (ip : Text) (now : ℕ) (vs : Visitors L) (o : Option (IpLimiter L)) (l : L)
      → find_visitor ip vs ≡ o
      → limiter_of fresh allow o ≡ l
      → IsAdmitted l ip now vs
  unfolding admit
  bucket-IsAdmitted ip now vs o l e h =
      subst (λ (b : L). IsAdmitted b ip now vs) (ap (limiter_of fresh allow) e ∙ h)
        (refl, find_visitor-put ip _ vs)

  -- A request of an address that is in the map is admitted by the bucket that is stored there, one of
  -- another address by a fresh bucket. The bucket, as the request leaves it, and the time are stored
  -- for that address, the others stay as they are, and no address gets a second entry. The cleanup
  -- keeps exactly the addresses seen within the last three minutes, with their buckets.
  pub admit-isolates :
      (ip : Text) (now : ℕ) (vs : Visitors L)
      → IsDistinct vs
      → let vs' = (admit fresh allow ip now vs).1 in
        (find_visitor ip vs ≡ none → IsAdmitted fresh ip now vs)
        × ((v : IpLimiter L) → find_visitor ip vs ≡ some v → IsAdmitted v.limiter ip now vs)
        × ((other : Text) → other ≢ ip → find_visitor other vs' ≡ find_visitor other vs)
        × IsDistinct vs'
        × IsDistinct (clean_up now vs)
        × ((other : Text) → find_visitor other (clean_up now vs) ≡ kept now (find_visitor other vs))
  unfolding admit limiter_of
  admit-isolates ip now vs h = (
    (λ e. bucket-IsAdmitted ip now vs none fresh e refl),
    (λ v e. bucket-IsAdmitted ip now vs (some v) v.limiter e refl),
    (λ other differs. find_visitor-other ip other _ vs differs),
    put_visitor-IsDistinct ip _ vs h,
    clean_up-IsDistinct now vs h,
    λ other. find_visitor-clean_up now other vs h,
  )

below_second : (n : ℕ) → 2 ≤ n → 1_000_000_000 / n / 1_000_000_000 ≡ 0
below_second n h = grind arith

-- The header is "1", but for one request in a second, where it is "1s".
pub retry_after_values :
    (rps : ℤ)
    → (rps ≡ pos 1 → retry_after rps ≡ codes "1s") × (rps ≢ pos 1 → retry_after rps ≡ codes "1")
unfolding retry_after whole_seconds decimal_digits
retry_after_values (negsuc n) = ((λ h. cc), λ h. refl)
retry_after_values (pos zero) = ((λ h. cc), λ h. refl)
retry_after_values (pos (suc zero)) = ((λ h. refl), λ h. absurd (h refl))
retry_after_values (pos (suc (suc n))) =
    ((λ h. cc), λ h. rw (below_second (suc (suc n)) (omega arith)) (either (suc (suc n) == 0)))
  where
    either : (b : Bool) → (if b then codes "1" else codes "1") ≡ codes "1"
    either true = refl
    either false = refl
