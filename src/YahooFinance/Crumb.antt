-- ===== src/YahooFinance/Crumb.antt =====
-- ensureCrumb: where the crumb comes from, and what it costs.
use quant_indonesia_scraping.Prelude.{
  ℕ, ◌+◌, ◌≤◌, ◌<◌, ◌≡◌, ◌≢◌, ◌⊎◌, ◌↔◌, refl, ap, ◌∙◌, true, false, Option, none, some, List, [],
  ◌∷◌, Text, trim_space, ◌==◌, length, Result, ok, err, Bool-cases, inl, inr, arith, ==_iff,
}
use quant_indonesia_scraping.YahooFinance.{
  Request, consent, get_crumb, chart, quote_summary, Reply, invalid, failed, answered, Session,
  Fetcher, tried, now, CrumbError, is_fresh, store_crumb, read_crumb, request_crumb, ensure_crumb,
}

-- The requests for profiles.
abbrev pub summaries : List Request → ℕ
summaries [] = 0
summaries (consent ∷ rs) = summaries rs
summaries (get_crumb ∷ rs) = summaries rs
summaries (chart ticker range ∷ rs) = summaries rs
summaries (quote_summary ticker crumb ∷ rs) = summaries rs + 1

-- At most `n` requests more, and `k` of them for profiles.
abbrev pub IsSpent : ℕ → ℕ → Session → Session → Type 0
IsSpent n k s s' =
    (length s'.requests ≤ length s.requests + n)
    × (summaries s'.requests ≤ summaries s.requests + k)

-- There is a crumb, and it came less than 30 minutes ago.
abbrev pub IsFresh : Fetcher → ℕ → Type 0
IsFresh f t = (f.crumb ≢ []) × (t < f.crumb_time + 1_800_000_000_000)

is_fresh_iff : (f : Fetcher) (t : ℕ) → (is_fresh f t ≡ true) ↔ IsFresh f t
unfolding is_fresh
is_fresh_iff f t = filled f.crumb refl
  where
    filled : (c : Text) → f.crumb ≡ c → (is_fresh f t ≡ true) ↔ IsFresh f t
    filled [] e = rw (e, is_fresh) ((λ h. cc), λ (h, k). absurd (h refl))
    filled (x ∷ c) e = rw (e, is_fresh) ((λ h. ((λ k. cc), ground arith)), λ (h, k). ground arith)

is_fresh-not : (f : Fetcher) (t : ℕ) → is_fresh f t ≡ false → ¬ IsFresh f t
is_fresh-not f t e h = cc ((is_fresh_iff f t).1 h, e)

module _ (net : List Request → Request → Reply) (clock : ℕ → ℕ) where
  -- The two requests that a new crumb takes.
  abbrev pub asked : Session → Session
  asked s = tried get_crumb (tried consent s)

  abbrev pub IsObtained : Session → Result CrumbError Text × Session → Type 0
  IsObtained s (err e, s') =
      ¬ IsFresh s.fetcher (now net clock s) × (s'.fetcher ≡ s.fetcher) × IsSpent 2 0 s s'
  IsObtained s (ok crumb, s') =
      (s'.fetcher.crumb ≡ crumb)
      × ((IsFresh s.fetcher (now net clock s) × (s' ≡ s))
          ⊎ ((body : Text) × ¬ IsFresh s.fetcher (now net clock s)
              × (net (consent ∷ s.requests) get_crumb ≡ answered 200 (some body))
              × (crumb ≡ trim_space body)
              × (s'.fetcher.crumb_time ≡ now net clock s')
              × (s'.requests ≡ get_crumb ∷ consent ∷ s.requests)))

  read_crumb-IsObtained :
      (s : Session) (reply : Reply)
      → ¬ IsFresh s.fetcher (now net clock s)
      → net (consent ∷ s.requests) get_crumb ≡ reply
      → IsObtained s (read_crumb net clock reply (asked s))
  unfolding read_crumb store_crumb
  read_crumb-IsObtained s invalid old e = (old, refl, (omega arith, omega arith))
  read_crumb-IsObtained s failed old e = (old, refl, (omega arith, omega arith))
  read_crumb-IsObtained s (answered status body) old e = elim (Bool-cases (status == 200)) [
    | inr h ↦ rw (h, read_crumb) (old, refl, (omega arith, omega arith))
    | inl h ↦
        rw (h, read_crumb) (stored body (e ∙ ap (λ n. answered n body) ((==_iff status 200).0 h)))
  ]
    where
      stored :
          (b : Option Text)
          → net (consent ∷ s.requests) get_crumb ≡ answered 200 b
          → IsObtained s (store_crumb net clock b (asked s))
      stored none e = (old, refl, (omega arith, omega arith))
      stored (some b) e = (refl, inr (b, old, e, refl, refl, refl))

  request_crumb-IsObtained :
      (s : Session) (reply : Reply)
      → ¬ IsFresh s.fetcher (now net clock s)
      → IsObtained s (request_crumb net clock reply (tried consent s))
  unfolding request_crumb
  request_crumb-IsObtained s invalid old = (old, refl, (omega arith, omega arith))
  request_crumb-IsObtained s failed old = (old, refl, (omega arith, omega arith))
  request_crumb-IsObtained s (answered status body) old = read_crumb-IsObtained s _ old refl

  -- While a crumb is cached that came less than 30 minutes ago, it is the crumb, at no request. Else,
  -- and only then, the crumb is the trimmed body of an answer with status 200 to the second of two
  -- requests, and is cached with the time it came at, or there is an error, which leaves the cache as
  -- it was, after at most two requests.
  pub ensure_crumb-IsObtained : (s : Session) → IsObtained s (ensure_crumb net clock s)
  unfolding ensure_crumb
  ensure_crumb-IsObtained s = elim (Bool-cases (is_fresh s.fetcher (now net clock s))) [
    | inl e ↦ rw (e, ensure_crumb) (refl, inl ((is_fresh_iff s.fetcher _).0 e, refl))
    | inr e ↦ rw (e, ensure_crumb) (request_crumb-IsObtained s _ (is_fresh-not s.fetcher _ e))
  ]

  pub ensure_crumb-IsSpent : (s : Session) → IsSpent 2 0 s (ensure_crumb net clock s).1
  ensure_crumb-IsSpent s = go (ensure_crumb net clock s) (ensure_crumb-IsObtained s)
    where
      go : (r : Result CrumbError Text × Session) → IsObtained s r → IsSpent 2 0 s r.1
      go (err e, s') (old, f, spent) = spent
      go (ok crumb, s') (f, inl (fresh, e)) = rw e (omega arith, omega arith)
      go (ok crumb, s') (f, inr (body, old, answer, e, t, rs)) = rw rs (omega arith, omega arith)
