-- ===== src/Handlers.antt =====
-- delivery/http/handler: the handlers that read, with the stock use case between them and the
-- repositories. A repository answers with a result of Postgres; the texts of a request are
-- arguments.
pub mod Lists
pub mod Detail
pub mod Market
pub mod Health
mod Examples
use quant_indonesia_scraping.Prelude.{
  ℕ, Bool, true, false, ◌&&◌, ◌||◌, Option, none, some, List, [], ◌∷◌, Text, codes, is_empty,
  text_eq, length, ℤ, pos, ltb_ℤ, leb_ℤ, Result, ok, err, if◌then◌else◌,
}
use quant_indonesia_scraping.Config.{atoi}
use quant_indonesia_scraping.Domain.{ArticleFilter, Stock}
use quant_indonesia_scraping.Response.{
  Answer, Meta, fails, succeeds, code_validation, code_not_found, code_internal,
}
use quant_indonesia_scraping.Postgres.{RepoError, not_found}

-- A number that is there, from 1 to `max`, else the default.
pub positive_param : ℕ → ℕ → Text → ℤ
positive_param max default [] = pos default
positive_param max default (c ∷ s) = elim (atoi (c ∷ s)) [
  | none ↦ pos default
  | some n ↦ if ltb_ℤ (pos 0) n && leb_ℤ n (pos max) then n else pos default
]

pub limit_param : Text → ℤ
unfolding positive_param
limit_param t = positive_param 100 20 t

pub days_param : Text → ℤ
unfolding positive_param
days_param t = positive_param 365 30 t

pub offset_param : Text → ℤ
offset_param [] = pos 0
offset_param (c ∷ s) = elim (atoi (c ∷ s)) [
  | none ↦ pos 0
  | some n ↦ if leb_ℤ (pos 0) n then n else pos 0
]

-- errors.Is(err, domain.ErrNotFound)
pub is_not_found : RepoError → Bool
is_not_found not_found = true
is_not_found _ = false

abbrev pub internal_error : {D : Type 0} → Answer D
internal_error = fails 500 code_internal (codes "internal server error")

-- A single entity: found, missing, or an error. ArticleHandler.GetByID and StockHandler.GetBySymbol
-- differ in the message.
pub entity_answer : {D : Type 0} → Text → Result RepoError D → Answer D
unfolding is_not_found
entity_answer missing (ok x) = succeeds 200 x none
entity_answer missing (err e) =
    if is_not_found e then fails 404 code_not_found missing else internal_error

-- StockHandler.GetBySymbol; `find` is the use case's.
pub get_stock : (Text → Result RepoError Stock) → Text → Answer Stock
unfolding entity_answer
get_stock find [] = fails 400 code_validation (codes "symbol is required")
get_stock find (c ∷ s) = entity_answer (codes "stock not found") (find (c ∷ s))

-- `parse_uuid` is uuid.Parse, `find` the use case's GetByID.
pub get_article : {D : Type 0} → (Text → Option ℕ) → (ℕ → Result RepoError D) → Text → Answer D
unfolding entity_answer
get_article parse_uuid find id_param = elim (parse_uuid id_param) [
  | none ↦ fails 400 code_validation (codes "invalid article ID format")
  | some id ↦ entity_answer (codes "article not found") (find id)
]

-- A page of a list: its length in the meta data, with the limit and offset that were asked for.
pub page_answer : {D : Type 0} → ℤ → ℤ → Text → Result RepoError (List D) → Answer (List D)
page_answer limit offset message (err e) = fails 500 code_internal message
page_answer limit offset message (ok xs) =
    succeeds 200 xs (some (record { limit = limit; offset = offset; count = length xs }))

-- StockUsecase.List; `repo` is the repository's List.
pub usecase_limit : ℤ → ℤ
usecase_limit limit = if leb_ℤ limit (pos 0) || ltb_ℤ (pos 100) limit then pos 20 else limit

pub usecase_offset : ℤ → ℤ
usecase_offset offset = if ltb_ℤ offset (pos 0) then pos 0 else offset

pub usecase_list :
    (Text → ℤ → ℤ → Result RepoError (List Stock)) → Text → ℤ → ℤ → Result RepoError (List Stock)
unfolding usecase_limit usecase_offset
usecase_list repo sector limit offset = repo sector (usecase_limit limit) (usecase_offset offset)

pub list_stocks :
    (Text → ℤ → ℤ → Result RepoError (List Stock)) → Text → Text → Text → Answer (List Stock)
unfolding usecase_list limit_param offset_param page_answer
list_stocks repo sector limit offset =
    page_answer (limit_param limit) (offset_param offset) (codes "internal server error")
      (usecase_list repo sector (limit_param limit) (offset_param offset))

-- The query parameters of GET /api/v1/articles.
pub record ArticleQuery : Type 0 where
  pub symbol : Text
  pub sentiment : Text
  pub source : Text
  pub from : Text
  pub to : Text
  pub limit : Text
  pub offset : Text

pub is_sentiment : Text → Bool
is_sentiment s =
    text_eq s (codes "Bullish") || text_eq s (codes "Bearish") || text_eq s (codes "Neutral")

-- An optional parameter: missing, valid, or refused with a message.
pub optional_param {ℓ} : {A : Type ℓ} → (Text → Option A) → Text → Text → Result Text (Option A)
optional_param parse message [] = ok none
optional_param parse message (c ∷ s) = elim (parse (c ∷ s)) [
  | none ↦ err message
  | some a ↦ ok (some a)
]

pub sentiment_of : Text → Option Text
unfolding is_sentiment
sentiment_of s = if is_sentiment s then some s else none

abbrev pub bad_sentiment : Text
bad_sentiment = codes "invalid sentiment: must be Bullish, Bearish, or Neutral"

abbrev pub bad_from : Text
bad_from = codes "invalid 'from' date format, use YYYY-MM-DD"

abbrev pub bad_to : Text
bad_to = codes "invalid 'to' date format, use YYYY-MM-DD"

-- `parse_date` is time.Parse with time.DateOnly.
module _ (parse_date : Text → Option ℕ) where
  pub date_params : ArticleQuery → Option Text → Result Text ArticleFilter
  unfolding optional_param limit_param offset_param
  date_params q label = elim (optional_param parse_date bad_from q.from) [
    | err e ↦ err e
    | ok from ↦ elim (optional_param parse_date bad_to q.to) [
      | err e ↦ err e
      | ok to ↦ ok (record {
        symbol = q.symbol;
        sentiment_label = label;
        source = q.source;
        from_date = from;
        to_date = to;
        limit = limit_param q.limit;
        offset = offset_param q.offset;
      })
    ]
  ]

  pub article_filter : ArticleQuery → Result Text ArticleFilter
  unfolding date_params sentiment_of
  article_filter q = elim (optional_param sentiment_of bad_sentiment q.sentiment) [
    | err e ↦ err e
    | ok label ↦ date_params q label
  ]

  pub list_articles_answer :
      {D : Type 0} → (ArticleFilter → Result RepoError (List D)) → ArticleQuery → Answer (List D)
  unfolding article_filter page_answer
  list_articles_answer list q = elim (article_filter q) [
    | err e ↦ fails 400 code_validation e
    | ok f ↦ page_answer f.limit f.offset (codes "internal server error") (list f)
  ]

-- GetNews of the stock handler, over the article repository's List.
pub get_news :
    {D : Type 0}
    → (ArticleFilter → Result RepoError (List D))
    → Text
    → Text
    → Text
    → Answer (List D)
unfolding limit_param offset_param page_answer
get_news list symbol limit offset =
    page_answer (limit_param limit) (offset_param offset) (codes "failed to get news") (
      list (record {
        symbol = symbol;
        sentiment_label = none;
        source = [];
        from_date = none;
        to_date = none;
        limit = limit_param limit;
        offset = offset_param offset;
      }))

-- GetHistory of the signal handler.
pub get_history_answer : {D : Type 0} → (Text → ℤ → Result RepoError D) → Text → Text → Answer D
unfolding days_param
get_history_answer history [] days = fails 400 code_validation (codes "symbol is required")
get_history_answer history (c ∷ s) days = elim (history (c ∷ s) (days_param days)) [
  | err e ↦ internal_error
  | ok h ↦ succeeds 200 h none
]
