-- ===== src/Handlers/Detail/Served.antt =====
-- Which profile GetDetail answers with.
use quant_indonesia_scraping.Prelude.{
  ℕ, zero, suc, ◌+◌, ◌<◌, ◌≡◌, ◌≢◌, ◌⊎◌, refl, true, false, Option, none, some, List, [], Text,
  codes, ℤ, pos, negsuc, arith, Result, ok, err, Bool-cases, inl, inr,
}
use quant_indonesia_scraping.Domain.{Stock, StockProfile, Executive}
use quant_indonesia_scraping.Response.{new_success_response, new_error_response}
use quant_indonesia_scraping.Postgres.{
  RepoError, not_found, already_exists, scanning, querying, iterating, executing,
}
use quant_indonesia_scraping.YahooFinance.{Request, Reply, Session, FetchError}
use quant_indonesia_scraping.YahooFinance.Profile.{YahooProfile, QuoteSummary, fetch_profile}
use quant_indonesia_scraping.Handlers.{is_not_found, entity_answer}
use quant_indonesia_scraping.Handlers.Detail.{
  StockDetail, list_or_nil, value_or_nil, new_profile, is_stale, saved_profile, refreshed_profile,
  current_profile, get_detail,
}

entity_answer-status :
    (D : Type 0) (missing : Text) (e : RepoError)
    → let status = (entity_answer {D = D} missing (err e)).status in
      ((e ≡ not_found) × (status ≡ 404)) ⊎ ((e ≢ not_found) × (status ≡ 500))
unfolding entity_answer is_not_found
entity_answer-status D missing not_found = inl (refl, refl)
entity_answer-status D missing already_exists = inr ((λ h. cc), refl)
entity_answer-status D missing scanning = inr ((λ h. cc), refl)
entity_answer-status D missing (querying t) = inr ((λ h. cc), refl)
entity_answer-status D missing (iterating t) = inr ((λ h. cc), refl)
entity_answer-status D missing (executing t) = inr ((λ h. cc), refl)

-- A list that was read, or none.
abbrev pub IsListOf : {A : Type 0} → Result RepoError (List A) → List A → Type 0
IsListOf (ok xs) ys = ys ≡ xs
IsListOf (err e) ys = ys ≡ []

list_or_nil-IsListOf : {A : Type 0} (r : Result RepoError (List A)) → IsListOf r (list_or_nil r)
list_or_nil-IsListOf (ok xs) = refl
list_or_nil-IsListOf (err e) = refl

-- The number of employees is kept where it is positive.
abbrev pub IsHeadcount : ℤ → Option ℤ → Type 0
IsHeadcount (negsuc n) o = o ≡ none
IsHeadcount (pos zero) o = o ≡ none
IsHeadcount (pos (suc n)) o = o ≡ some (pos (suc n))

module _ {F : Type 0} where
  -- The profile that the repository gives, or none.
  abbrev pub IsStored : Result RepoError (StockProfile F) → Option (StockProfile F) → Type 0
  IsStored (ok p) o = o ≡ some p
  IsStored (err e) o = o ≡ none

  value_or_nil-IsStored : (r : Result RepoError (StockProfile F)) → IsStored r (value_or_nil r)
  value_or_nil-IsStored (ok p) = refl
  value_or_nil-IsStored (err e) = refl

  -- No profile, or one that was fetched more than a day ago.
  abbrev pub IsOld : ℕ → Option (StockProfile F) → Type 0
  IsOld now none = Unit
  IsOld now (some p) = p.fetched_at + 86_400_000_000_000 < now

  is_stale-IsOld : (now : ℕ) (o : Option (StockProfile F)) → is_stale now o ≡ true → IsOld now o
  unfolding is_stale
  is_stale-IsOld now none h = tt
  is_stale-IsOld now (some p) h = ground arith

  is_stale-not : (now : ℕ) (o : Option (StockProfile F)) → is_stale now o ≡ false → ¬ IsOld now o
  unfolding is_stale
  is_stale-not now none h k = cc
  is_stale-not now (some p) h k = ground arith

  -- The profile has the values that Yahoo gave, under the symbol of the stock.
  abbrev pub IsProfileOf : Text → YahooProfile F → StockProfile F → Type 0
  IsProfileOf symbol yp p =
      (p.symbol ≡ symbol)
      × (p.description ≡ yp.long_business_summary)
      × (p.industry ≡ yp.industry)
      × (p.city ≡ yp.city)
      × (p.country ≡ yp.country)
      × (p.website ≡ yp.website)
      × (p.market_cap ≡ some yp.market_cap)
      × (p.shares_outstanding ≡ some yp.shares_outstanding)
      × (p.float_shares ≡ some yp.float_shares)
      × (p.trailing_pe ≡ some yp.trailing_pe)
      × (p.price_to_book ≡ some yp.price_to_book)
      × (p.trailing_eps ≡ some yp.trailing_eps)
      × (p.dividend_yield ≡ some yp.dividend_yield)
      × (p.week52_high ≡ some yp.fifty_two_week_high)
      × (p.week52_low ≡ some yp.fifty_two_week_low)
      × (p.total_revenue ≡ some yp.total_revenue)
      × (p.net_income ≡ some yp.net_income)
      × (p.total_debt ≡ some yp.total_debt)
      × (p.total_assets ≡ some yp.total_assets)
      × (p.return_on_equity ≡ some yp.return_on_equity)
      × (p.debt_to_equity ≡ some yp.debt_to_equity)
      × IsHeadcount yp.full_time_employees p.employees

  headcount :
      (symbol : Text) (yp : YahooProfile F) (n : ℤ)
      → yp.full_time_employees ≡ n
      → IsHeadcount n (new_profile symbol yp).employees
  unfolding new_profile
  headcount symbol yp (negsuc n) e = rw e (ground arith)
  headcount symbol yp (pos zero) e = rw e (ground arith)
  headcount symbol yp (pos (suc n)) e = rw e (ground arith)

  new_profile-IsProfileOf :
      (symbol : Text) (yp : YahooProfile F) → IsProfileOf symbol yp (new_profile symbol yp)
  unfolding new_profile
  new_profile-IsProfileOf symbol yp = (
    refl,
    refl,
    refl,
    refl,
    refl,
    refl,
    refl,
    refl,
    refl,
    refl,
    refl,
    refl,
    refl,
    refl,
    refl,
    refl,
    refl,
    refl,
    refl,
    refl,
    refl,
    headcount symbol yp _ refl,
  )

module _ {F S : Type 0} (upsert : StockProfile F → S → Option Text × S)
    (decode : Text → Option (QuoteSummary F)) (net : List Request → Request → Reply)
    (clock : ℕ → ℕ) where
  -- A fresh profile costs nothing. A stale one is replaced by the fetched one once that is saved, and
  -- else served as it is, also where there is none.
  abbrev pub IsCurrent :
      Stock
      → Text
      → ℕ
      → Option (StockProfile F)
      → Session
      → S
      → Option (StockProfile F) × Session × S
      → Type 0
  IsCurrent stock symbol now old y s (profile, y', s') =
      let (result, fetched) = fetch_profile decode net clock symbol y in
      (¬ IsOld now old × (profile ≡ old) × (y' ≡ y) × (s' ≡ s))
      ⊎ (IsOld now old
          × (y' ≡ fetched)
          × (((e : FetchError) × (result ≡ err e) × (profile ≡ old) × (s' ≡ s))
              ⊎ ((yp : YahooProfile F) × (new : StockProfile F) × (result ≡ ok yp)
                  × IsProfileOf stock.symbol yp new
                  × (((upsert new s ≡ (none, s')) × (profile ≡ some new))
                      ⊎ ((e : Text) × (upsert new s ≡ (some e, s')) × (profile ≡ old))))))

  current_profile-IsCurrent :
      (stock : Stock) (symbol : Text) (now : ℕ) (old : Option (StockProfile F)) (y : Session)
      (s : S)
      → IsCurrent stock symbol now old y s
          (current_profile upsert decode net clock stock symbol now old y s)
  unfolding current_profile refreshed_profile saved_profile
  current_profile-IsCurrent stock symbol now old y s = elim (Bool-cases (is_stale now old)) [
    | inr e ↦ rw (e, current_profile) (inl (is_stale-not now old e, refl, refl, refl))
    | inl e ↦
        rw (e, current_profile)
          (inr (
            is_stale-IsOld now old e,
            refl,
            fetched (fetch_profile decode net clock symbol y).0 refl,
          ))
  ]
    where
      saved :
          (yp : YahooProfile F) (o : Option Text × S)
          → upsert (new_profile stock.symbol yp) s ≡ o
          → let (profile, s') = saved_profile upsert old (new_profile stock.symbol yp) o in
            ((upsert (new_profile stock.symbol yp) s ≡ (none, s'))
              × (profile ≡ some (new_profile stock.symbol yp)))
            ⊎ ((e : Text) × (upsert (new_profile stock.symbol yp) s ≡ (some e, s'))
                × (profile ≡ old))
      saved yp (none, s1) e = inl (e, refl)
      saved yp (some m, s1) e = inr (m, e, refl)

      fetched :
          (r : Result FetchError (YahooProfile F))
          → (fetch_profile decode net clock symbol y).0 ≡ r
          → let (profile, s') = refreshed_profile upsert stock.symbol old r s in
            ((e : FetchError) × (r ≡ err e) × (profile ≡ old) × (s' ≡ s))
            ⊎ ((yp : YahooProfile F) × (new : StockProfile F) × (r ≡ ok yp)
                × IsProfileOf stock.symbol yp new
                × (((upsert new s ≡ (none, s')) × (profile ≡ some new))
                    ⊎ ((e : Text) × (upsert new s ≡ (some e, s')) × (profile ≡ old))))
      fetched (err e) h = inl (e, refl, refl, refl)
      fetched (ok yp) h = inr (
        yp,
        new_profile stock.symbol yp,
        refl,
        new_profile-IsProfileOf stock.symbol yp,
        saved yp _ refl,
      )

  -- The detail of a stock is answered with 404 where the stock is not found, with 500 on another
  -- error, and then nothing is fetched or saved. Else it is answered with 200 and the stock, also
  -- where the other repositories or Yahoo fail: a profile that is at most a day old is served without
  -- a request, an older or missing one is fetched, and the new one, which has the values that Yahoo
  -- gave, is served once it is saved, else the old one; the lists that cannot be read are empty.
  pub get_detail-IsCurrent :
      {D : Type 0} (find : Result RepoError Stock) (stored : Result RepoError (StockProfile F))
      (executives : Result RepoError (List Executive)) (news : Result RepoError (List D))
      (symbol : Text) (now : ℕ) (y : Session) (s : S)
      → let (a, y', s') =
          get_detail upsert decode net clock find stored executives news symbol now y s in
        ((e : RepoError) × (find ≡ err e)
          × (((e ≡ not_found) × (a.status ≡ 404)) ⊎ ((e ≢ not_found) × (a.status ≡ 500)))
          × (y' ≡ y)
          × (s' ≡ s))
        ⊎ ((stock : Stock) × (detail : StockDetail F D) × (old : Option (StockProfile F)) × (find
              ≡ ok stock)
            × (a.status ≡ 200)
            × (a.body.payload ≡ some detail)
            × (detail.stock ≡ stock)
            × IsListOf executives detail.executives
            × IsListOf news detail.news
            × IsStored stored old
            × IsCurrent stock symbol now old y s (detail.profile, y', s'))
  unfolding get_detail entity_answer new_success_response new_error_response
  get_detail-IsCurrent (err e) stored executives news symbol now y s =
      inl (e, refl, entity_answer-status _ (codes "stock not found") e, refl, refl)
  get_detail-IsCurrent (ok stock) stored executives news symbol now y s = inr (
    stock,
    _,
    value_or_nil stored,
    refl,
    refl,
    refl,
    refl,
    list_or_nil-IsListOf executives,
    list_or_nil-IsListOf news,
    value_or_nil-IsStored stored,
    current_profile-IsCurrent stock symbol now (value_or_nil stored) y s,
  )
