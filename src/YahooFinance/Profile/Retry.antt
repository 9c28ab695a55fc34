-- ===== src/YahooFinance/Profile/Retry.antt =====
-- FetchProfile asks at most twice, and a profile is what the last request was answered with.

use quant_indonesia_scraping.Prelude.{
  ℕ, ◌+◌, ◌≤◌, ◌≡◌, refl, sym, ap, Option, none, some, List, [], ◌∷◌, Text, ◌==◌, ==_iff, get_elem?,
  Result, ok, err, ok-injective, length, arith, Bool-cases, inl, inr,
}
use quant_indonesia_scraping.YahooFinance.{
  Request, quote_summary, Reply, answered, failed, invalid, Session, ensure_crumb, CrumbError,
  FetchError, tried,
}
use quant_indonesia_scraping.YahooFinance.Symbols.{ticker_of}
use quant_indonesia_scraping.YahooFinance.Crumb.{
  summaries, IsSpent, IsObtained, ensure_crumb-IsSpent, ensure_crumb-IsObtained,
}
use quant_indonesia_scraping.YahooFinance.Profile.{
  SummaryResult, QuoteSummary, YahooProfile, profile_of, summary_profile_of, decode_profile,
  read_profile, retried, retry_with, without_crumb, first_answer, profile_with, fetch_profile,
}

module _ {F : Type 0} (decode : Text → Option (QuoteSummary F)) where
  -- What a profile is read from: the first result of a decoded answer without an error of the API.
  abbrev pub IsDecoded : ℕ → Option Text → YahooProfile F → Type 0
  IsDecoded status body p =
      (b : Text) × (q : QuoteSummary F) × (r : SummaryResult F) × (status ≡ 200)
      × (body ≡ some b)
      × (decode b ≡ some q)
      × (q.error ≡ none)
      × (get_elem? q.result 0 ≡ some r)
      × (p ≡ profile_of r)

  read_profile-IsDecoded :
      (ticker : Text) (status : ℕ) (body : Option Text) (p : YahooProfile F)
      → read_profile decode ticker status body ≡ ok p
      → IsDecoded status body p
  unfolding read_profile
  read_profile-IsDecoded ticker status body p = elim (Bool-cases (status == 200)) [
    | inr e ↦ rw (e, read_profile) (λ h. cc)
    | inl e ↦ rw (e, read_profile) (decoded ((==_iff status 200).0 e) body)
  ]
    where
      chosen :
          (b : Text) (q : QuoteSummary F) (error : Option (Text × Text))
          (rs : List (SummaryResult F))
          → status ≡ 200
          → decode b ≡ some q
          → q.error ≡ error
          → q.result ≡ rs
          → summary_profile_of ticker q ≡ ok p
          → IsDecoded status (some b) p
      chosen b q (some e) rs st e' he hr = rw (he, summary_profile_of) (λ h. cc)
      chosen b q none [] st e' he hr = rw (he, summary_profile_of) (rw hr (λ h. cc))
      chosen b q none (r ∷ rs) st e' he hr =
          rw (he, summary_profile_of)
            (rw hr (λ h.
              (b, q, r, st, refl, e', he, ap (λ xs. get_elem? xs 0) hr, sym (ok-injective h))))

      parsed :
          (b : Text) (o : Option (QuoteSummary F))
          → status ≡ 200
          → decode b ≡ o
          → decode_profile decode ticker (some b) ≡ ok p
          → IsDecoded status (some b) p
      parsed b none st e' = rw (e', decode_profile) (λ h. cc)
      parsed b (some q) st e' =
          rw (e', decode_profile) (chosen b q q.error q.result st e' refl refl)

      decoded :
          status ≡ 200
          → (b : Option Text) → decode_profile decode ticker b ≡ ok p
          → IsDecoded status b p
      decoded st none = λ h. cc
      decoded st (some b) = parsed b (decode b) st refl

  -- The answer to the session's last request is what the profile is read from.
  abbrev pub IsLast : (List Request → Request → Reply) → Text → Session → YahooProfile F → Type 0
  IsLast net ticker s p =
      (crumb : Text) × (rest : List Request) × (status : ℕ) × (body : Option Text) × (s.requests
        ≡ quote_summary ticker crumb ∷ rest)
      × (s.fetcher.crumb ≡ crumb)
      × (net rest (quote_summary ticker crumb) ≡ answered status body)
      × IsDecoded status body p

  module _ (net : List Request → Request → Reply) (clock : ℕ → ℕ) (ticker : Text) where
    abbrev IsFetched : ℕ → ℕ → Session → Result FetchError (YahooProfile F) × Session → Type 0
    IsFetched n k s (r, s') =
        IsSpent n k s s' × ((p : YahooProfile F) → r ≡ ok p → IsLast net ticker s' p)

    retried-IsDecoded :
        (reply : Reply) (p : YahooProfile F)
        → retried decode ticker reply ≡ ok p
        → (status : ℕ) × (body : Option Text) × (reply ≡ answered status body)
          × IsDecoded status body p
    unfolding retried
    retried-IsDecoded invalid p h = cc
    retried-IsDecoded failed p h = cc
    retried-IsDecoded (answered status body) p h =
        (status, body, refl, read_profile-IsDecoded ticker status body p h)

    retry_with-IsFetched :
        (s : Session) (r : Result CrumbError Text × Session)
        → IsObtained net clock s r
        → IsSpent 2 0 s r.1
        → IsFetched 3 1 s (retry_with decode net clock ticker r)
    unfolding retry_with
    retry_with-IsFetched s (err e, s') o (n, k) = ((omega arith, omega arith), λ p h. cc)
    retry_with-IsFetched s (ok crumb, s') (c, o) (n, k) = (
      (omega arith, omega arith),
      λ p h.
          let (status, body, e, d) = retried-IsDecoded _ p h in
          (crumb, s'.requests, status, body, refl, c, e, d),
    )

    first_answer-IsFetched :
        (s : Session) (crumb : Text) (reply : Reply)
        → s.fetcher.crumb ≡ crumb
        → net s.requests (quote_summary ticker crumb) ≡ reply
        → let s' = tried (quote_summary ticker crumb) s in
          IsFetched 4 2 s (first_answer decode net clock ticker reply s')
    unfolding first_answer
    first_answer-IsFetched s crumb invalid c e = ((omega arith, omega arith), λ p h. cc)
    first_answer-IsFetched s crumb failed c e = ((omega arith, omega arith), λ p h. cc)
    first_answer-IsFetched s crumb (answered status body) c e = elim (Bool-cases (status == 401)) [
      | inr h ↦
          rw (h, first_answer)
            (
              (omega arith, omega arith),
              λ p d. (
                crumb,
                s.requests,
                status,
                body,
                refl,
                c,
                e,
                read_profile-IsDecoded ticker status body p d,
              ),
            )
      | inl h ↦ rw (h, first_answer) again
    ]
      where
        reset : Session
        reset = without_crumb (tried (quote_summary ticker crumb) s)

        again : IsFetched 4 2 s (retry_with decode net clock ticker (ensure_crumb net clock reset))
        again =
            let ((n, k), last) =
              retry_with-IsFetched reset (ensure_crumb net clock reset)
                (ensure_crumb-IsObtained net clock reset) (ensure_crumb-IsSpent net clock reset) in
            ((omega arith, omega arith), last)

    profile_with-IsFetched :
        (s : Session) (r : Result CrumbError Text × Session)
        → IsObtained net clock s r
        → IsSpent 2 0 s r.1
        → IsFetched 6 2 s (profile_with decode net clock ticker r)
    unfolding profile_with
    profile_with-IsFetched s (err e, s') o (n, k) = ((omega arith, omega arith), λ p h. cc)
    profile_with-IsFetched s (ok crumb, s') (c, o) (n, k) =
        let ((n', k'), last) = first_answer-IsFetched s' crumb _ c refl in
        ((omega arith, omega arith), last)

  -- FetchProfile makes at most six requests, at most two of them for the profile, and ends. A
  -- profile is read from the answer to the last request, which was for the ticker and with the crumb
  -- that is cached then, had the status 200 and decoded, without an error of the API, to a first
  -- result.
  pub fetch_profile-IsLast :
      (net : List Request → Request → Reply) (clock : ℕ → ℕ) (symbol : Text) (s : Session)
      → let (r, s') = fetch_profile decode net clock symbol s in
        (length s'.requests ≤ length s.requests + 6)
        × (summaries s'.requests ≤ summaries s.requests + 2)
        × ((p : YahooProfile F) → r ≡ ok p → IsLast net (ticker_of symbol) s' p)
  unfolding fetch_profile
  fetch_profile-IsLast net clock symbol s =
      let ((n, k), last) =
        profile_with-IsFetched net clock (ticker_of symbol) s (ensure_crumb net clock s)
          (ensure_crumb-IsObtained net clock s) (ensure_crumb-IsSpent net clock s) in
      (n, k, last)
