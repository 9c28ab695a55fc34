-- ===== src/Handlers/Lists.antt =====
-- The pages that the handlers ask for are in range, and reach the database as they are.
use mathlib.Core.Path.{subst}
use quant_indonesia_scraping.Prelude.{
  ℕ, ◌≤◌, ◌<◌, ◌≡◌, ◌⊎◌, ◌++◌, refl, sym, ◌&&◌, Option, none, some, List, [], ◌∷◌, Text, length, ℤ,
  pos, negsuc, ◌≤ℤ◌, ltb_ℤ, leb_ℤ, Result, ok, err, ok-injective, if◌then◌else◌, inl, inr, arith,
}
use quant_indonesia_scraping.Config.{atoi}
use quant_indonesia_scraping.Domain.{ArticleFilter, Stock}
use quant_indonesia_scraping.Response.{Answer, new_success_response, new_error_response}
use quant_indonesia_scraping.Postgres.{RepoError}
use quant_indonesia_scraping.Postgres.Queries.{list_articles}
use quant_indonesia_scraping.Postgres.Queries.Binding.{
  IsBound, article_parts, page_part, list_articles-IsBound,
}
use quant_indonesia_scraping.Handlers.{
  positive_param, limit_param, days_param, offset_param, page_answer, usecase_limit, usecase_offset,
  usecase_list, list_stocks, ArticleQuery, bad_from, bad_to, bad_sentiment, optional_param,
  sentiment_of, date_params, article_filter, list_articles_answer,
}

-- At least one and at most `max`.
abbrev pub InRange : ℕ → ℤ → Type 0
InRange max n = (pos 1 ≤ℤ n) × (n ≤ℤ pos max)

positive_param-InRange :
    (max default : ℕ) (t : Text)
    → 0 < default
    → default ≤ max
    → InRange max (positive_param max default t)
unfolding positive_param
positive_param-InRange max default [] low high = (omega arith, omega arith)
positive_param-InRange max default (c ∷ s) low high = go (atoi (c ∷ s)) refl
  where
    kept : (n : ℤ) → InRange max (if ltb_ℤ (pos 0) n && leb_ℤ n (pos max) then n else pos default)
    kept (pos n) = (ground arith, ground arith)
    kept (negsuc n) = (ground arith, ground arith)

    go : (o : Option ℤ) → atoi (c ∷ s) ≡ o → InRange max (positive_param max default (c ∷ s))
    go none e = rw (e, positive_param) (omega arith, omega arith)
    go (some n) e = rw (e, positive_param) (kept n)

offset_param-positive : (t : Text) → pos 0 ≤ℤ offset_param t
unfolding offset_param
offset_param-positive [] = omega arith
offset_param-positive (c ∷ s) = go (atoi (c ∷ s)) refl
  where
    kept : (n : ℤ) → pos 0 ≤ℤ (if leb_ℤ (pos 0) n then n else pos 0)
    kept (pos n) = ground arith
    kept (negsuc n) = ground arith

    go : (o : Option ℤ) → atoi (c ∷ s) ≡ o → pos 0 ≤ℤ offset_param (c ∷ s)
    go none e = rw (e, offset_param) (omega arith)
    go (some n) e = rw (e, offset_param) (kept n)

-- Whatever a request says, a limit is from 1 to 100, a number of days from 1 to 365 and an offset not
-- negative.
pub params_bounds :
    (t : Text)
    → InRange 100 (limit_param t) × InRange 365 (days_param t) × (pos 0 ≤ℤ offset_param t)
unfolding limit_param days_param
params_bounds t = (
  positive_param-InRange 100 20 t (omega arith) (omega arith),
  positive_param-InRange 365 30 t (omega arith) (omega arith),
  offset_param-positive t,
)

usecase_limit-same : (n : ℤ) → InRange 100 n → usecase_limit n ≡ n
unfolding usecase_limit
usecase_limit-same (pos n) (low, high) = ground arith
usecase_limit-same (negsuc n) (low, high) = ground arith

usecase_offset-same : (n : ℤ) → pos 0 ≤ℤ n → usecase_offset n ≡ n
unfolding usecase_offset
usecase_offset-same (pos n) h = ground arith
usecase_offset-same (negsuc n) h = ground arith

-- A list of stocks is what the repository gives for the limit and the offset of the request, which
-- the use case does not change, and its meta data name this page and its length.
pub list_stocks-IsPage :
    (repo : Text → ℤ → ℤ → Result RepoError (List Stock)) (sector limit offset : Text)
    → let l = limit_param limit in
      let o = offset_param offset in
      (usecase_list repo sector l o ≡ repo sector l o)
      × ((xs : List Stock)
          → repo sector l o ≡ ok xs
          → (list_stocks repo sector limit offset).status ≡ 200
            × ((list_stocks repo sector limit offset).body.meta
                ≡ some (record { limit = l; offset = o; count = length xs })))
      × ((e : RepoError)
          → repo sector l o ≡ err e
          → (list_stocks repo sector limit offset).status ≡ 500)
unfolding list_stocks usecase_list page_answer new_success_response new_error_response
list_stocks-IsPage repo sector limit offset =
    let (in_range, days, positive) = params_bounds limit in
    let (any, more, offset_ok) = params_bounds offset in
    let same = usecase_limit-same (limit_param limit) in_range in
    let stays = usecase_offset-same (offset_param offset) offset_ok in
    (
      rw same (rw stays refl),
      (λ xs h. rw same (rw stays (rw h (refl, refl)))),
      λ e h. rw same (rw stays (rw h refl)),
    )

-- A parameter that is there was parsed.
optional_param-ok :
    {A : Type 0} (parse : Text → Option A) (message t : Text) (o : Option A)
    → optional_param parse message t ≡ ok o
    → ((t ≡ []) × (o ≡ none)) ⊎ ((a : A) × (o ≡ some a) × (parse t ≡ some a))
unfolding optional_param
optional_param-ok parse message [] o = λ h. inl (refl, sym (ok-injective h))
optional_param-ok parse message (c ∷ s) o = go (parse (c ∷ s)) refl
  where
    go :
        (p : Option _)
        → parse (c ∷ s) ≡ p
        → optional_param parse message (c ∷ s) ≡ ok o
        → (((c ∷ s) ≡ []) × (o ≡ none)) ⊎ ((a : _) × (o ≡ some a) × (parse (c ∷ s) ≡ some a))
    go none e = rw (e, optional_param) (λ h. cc)
    go (some a) e = rw (e, optional_param) (λ h. inr (a, sym (ok-injective h), refl))

module _ (parse_date : Text → Option ℕ) where
  -- The parameter was missing, or it is the parsed value.
  abbrev pub IsParam : {A : Type 0} → (Text → Option A) → Text → Option A → Type 0
  IsParam parse t o = ((t ≡ []) × (o ≡ none)) ⊎ ((a : _) × (o ≡ some a) × (parse t ≡ some a))

  abbrev pub IsFilter : ArticleQuery → ArticleFilter → Type 0
  IsFilter q f =
      (f.symbol ≡ q.symbol)
      × (f.source ≡ q.source)
      × IsParam sentiment_of q.sentiment f.sentiment_label
      × IsParam parse_date q.from f.from_date
      × IsParam parse_date q.to f.to_date
      × (f.limit ≡ limit_param q.limit)
      × (f.offset ≡ offset_param q.offset)

  date_params-IsFilter :
      (q : ArticleQuery) (label : Option Text) (f : ArticleFilter)
      → IsParam sentiment_of q.sentiment label
      → date_params parse_date q label ≡ ok f
      → IsFilter q f
  unfolding date_params
  date_params-IsFilter q label f hl =
      go (optional_param parse_date bad_from q.from) (optional_param parse_date bad_to q.to) refl
        refl
    where
      go :
          (a b : Result Text (Option ℕ))
          → optional_param parse_date bad_from q.from ≡ a
          → optional_param parse_date bad_to q.to ≡ b
          → date_params parse_date q label ≡ ok f
          → IsFilter q f
      go (err e) b ha hb = rw (ha, date_params) (λ h. cc)
      go (ok from) (err e) ha hb = rw (ha, date_params) (rw hb (λ h. cc))
      go (ok from) (ok to) ha hb =
          rw (ha, date_params)
            (rw hb (λ h. rw (sym (ok-injective h)) (
              refl,
              refl,
              hl,
              optional_param-ok parse_date bad_from q.from from ha,
              optional_param-ok parse_date bad_to q.to to hb,
              refl,
              refl,
            )))

  article_filter-IsFilter :
      (q : ArticleQuery) (f : ArticleFilter) → article_filter parse_date q ≡ ok f → IsFilter q f
  unfolding article_filter
  article_filter-IsFilter q f = go (optional_param sentiment_of bad_sentiment q.sentiment) refl
    where
      go :
          (a : Result Text (Option Text))
          → optional_param sentiment_of bad_sentiment q.sentiment ≡ a
          → article_filter parse_date q ≡ ok f
          → IsFilter q f
      go (err e) ha = rw (ha, article_filter) (λ h. cc)
      go (ok label) ha =
          rw (ha, article_filter)
            (date_params-IsFilter q label f
              (optional_param-ok sentiment_of bad_sentiment q.sentiment label ha))

  -- The query for the articles of the filter asks for the filter's page.
  page-IsBound :
      (q : ArticleQuery) (f : ArticleFilter)
      → f.limit ≡ limit_param q.limit
      → IsBound (article_parts f ++ page_part f.limit f.offset) (list_articles f)
  page-IsBound q f e =
      let (bound, (low, high, kept)) = list_articles-IsBound f in
      let ((lo, hi), days, positive) = params_bounds q.limit in
      let same = kept (subst (λ n. pos 1 ≤ℤ n) (sym e) lo) (subst (λ n. n ≤ℤ pos 100) (sym e) hi) in
      subst (λ n. IsBound (article_parts f ++ page_part n f.offset) (list_articles f)) same bound

  abbrev pub IsListed :
      {D : Type 0}
      → (ArticleFilter → Result RepoError (List D))
      → ArticleQuery
      → Answer (List D)
      → Type 0
  IsListed list q a =
      ((e : Text) × (article_filter parse_date q ≡ err e) × (a.status ≡ 400))
      ⊎ ((f : ArticleFilter) × (article_filter parse_date q ≡ ok f)
          × IsFilter q f
          × IsBound (article_parts f ++ page_part f.limit f.offset) (list_articles f)
          × ((xs : _)
              → list f ≡ ok xs
              → (a.status ≡ 200)
                × (a.body.meta
                    ≡ some (record { limit = f.limit; offset = f.offset; count = length xs })))
          × ((e : RepoError) → list f ≡ err e → a.status ≡ 500))

  -- A list of articles is refused with 400 where a parameter is invalid. Else the filter has the
  -- parameters of the request, its page is the page that the query asks the database for and that the
  -- meta data name, with the number of articles found; an error of the repository is answered with
  -- 500.
  pub list_articles_answer-IsListed :
      {D : Type 0} (list : ArticleFilter → Result RepoError (List D)) (q : ArticleQuery)
      → IsListed list q (list_articles_answer parse_date list q)
  unfolding list_articles_answer page_answer new_success_response new_error_response
  list_articles_answer-IsListed list q = go (article_filter parse_date q) refl
    where
      go :
          (r : Result Text ArticleFilter)
          → article_filter parse_date q ≡ r
          → IsListed list q (list_articles_answer parse_date list q)
      go (err e) h = rw (h, list_articles_answer) (inl (e, refl, refl))
      go (ok f) h =
          let filter = article_filter-IsFilter q f h in
          rw (h, list_articles_answer)
            (inr (
              f,
              refl,
              filter,
              page-IsBound q f filter.5,
              (λ xs k. rw k (refl, refl)),
              λ e k. rw k refl,
            ))
