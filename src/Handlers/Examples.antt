-- ===== src/Handlers/Examples.antt =====
-- Requests with good and bad parameters, against small repositories.
use quant_indonesia_scraping.Prelude.{
  ℕ, ◌+◌, ◌≡◌, ◌≢◌, ◌⊎◌, ◌++◌, refl, Option, none, some, List, [], ◌∷◌, Text, codes, length, ℤ,
  Result, ok, err,
}
use quant_indonesia_scraping.Float.Decimal.{Decimal, decimal}
use quant_indonesia_scraping.Domain.{ArticleFilter, Stock, StockPrice, StockProfile}
use quant_indonesia_scraping.Response.{Answer}
use quant_indonesia_scraping.Postgres.{RepoError, not_found, querying}
use quant_indonesia_scraping.YahooFinance.{
  Request, Reply, failed, Session, FetchError, decoding, new_fetcher,
}
use quant_indonesia_scraping.YahooFinance.Quotes.{YahooResponse, fetch_prices}
use quant_indonesia_scraping.Handlers.{
  limit_param, offset_param, usecase_list, list_stocks, page_answer, ArticleQuery,
  list_articles_answer, article_filter, date_params, optional_param, sentiment_of, is_sentiment,
  get_article, get_stock, entity_answer, is_not_found, get_news, get_history_answer,
}
use quant_indonesia_scraping.Handlers.Lists.{
  IsListed, list_stocks-IsPage, list_articles_answer-IsListed,
}
use quant_indonesia_scraping.Handlers.Detail.{StockDetail, get_detail, profile_answer}
use quant_indonesia_scraping.Handlers.Detail.Served.{IsCurrent, get_detail-IsCurrent}
use quant_indonesia_scraping.Handlers.Market.{get_ihsg, IsDaily, IsSingle, get_ihsg-IsDaily}

abbrev bbca : Stock
bbca = record { symbol = codes "BBCA"; company_name = codes "Bank"; sector = [] }

abbrev repo : Text → ℤ → ℤ → Result RepoError (List Stock)
repo sector limit offset = ok (bbca ∷ [])

list_stocks-IsPage_example :
    (usecase_list repo [] (limit_param (codes "5")) (offset_param (codes "x"))
      ≡ repo [] (limit_param (codes "5")) (offset_param (codes "x")))
    × ((xs : List Stock)
        → repo [] (limit_param (codes "5")) (offset_param (codes "x")) ≡ ok xs
        → (list_stocks repo [] (codes "5") (codes "x")).status ≡ 200
          × ((list_stocks repo [] (codes "5") (codes "x")).body.meta
              ≡ some (record {
                limit = limit_param (codes "5");
                offset = offset_param (codes "x");
                count = length xs;
              })))
    × ((e : RepoError)
        → repo [] (limit_param (codes "5")) (offset_param (codes "x")) ≡ err e
        → (list_stocks repo [] (codes "5") (codes "x")).status ≡ 500)
list_stocks-IsPage_example = list_stocks-IsPage repo [] (codes "5") (codes "x")

abbrev query : ArticleQuery
query = record {
  symbol = codes "BBCA";
  sentiment = codes "Bullish";
  source = [];
  from = codes "2026-01-02";
  to = [];
  limit = [];
  offset = [];
}

abbrev articles : ArticleFilter → Result RepoError (List ℕ)
articles f = ok (1 ∷ 2 ∷ [])

list_articles_answer-IsListed_example :
    IsListed (λ t. some 5) articles query (list_articles_answer (λ t. some 5) articles query)
list_articles_answer-IsListed_example = list_articles_answer-IsListed (λ t. some 5) articles query

two_articles : (list_articles_answer (λ t. some 5) articles query).status ≡ 200
unfolding list_articles_answer article_filter date_params optional_param sentiment_of is_sentiment
    page_answer
two_articles = refl

bad_date : (list_articles_answer (λ t. none) articles query).status ≡ 400
unfolding list_articles_answer article_filter date_params optional_param sentiment_of is_sentiment
bad_date = refl

no_article : (get_article {D = ℕ} (λ t. some 3) (λ n. err not_found) (codes "id")).status ≡ 404
unfolding get_article entity_answer is_not_found
no_article = refl

no_stock : (get_stock (λ s. err not_found) []).status ≡ 400
unfolding get_stock
no_stock = refl

no_news : (get_news {D = ℕ} (λ f. err (querying [])) (codes "BBCA") [] []).status ≡ 500
unfolding get_news page_answer
no_news = refl

no_symbol : (get_history_answer {D = ℕ} (λ s n. ok 1) [] []).status ≡ 400
unfolding get_history_answer
no_symbol = refl

abbrev session : Session
session = record { fetcher = new_fetcher; requests = [] }

-- Yahoo cannot be reached.
abbrev net : List Request → Request → Reply
net rs r = failed

abbrev upsert : StockProfile Decimal → ℕ → Option Text × ℕ
upsert p n = (none, n + 1)

abbrev detail : Answer (StockDetail Decimal ℕ) × Session × ℕ
detail =
    get_detail upsert (λ t. none) net (λ n. n) (ok bbca) (err not_found) (ok []) (ok (4 ∷ []))
      (codes "BBCA") 100 session 7

get_detail-IsCurrent_example :
    ((e : RepoError) × (◌≡◌ {A = Result RepoError Stock} (ok bbca) (err e))
      × (((e ≡ not_found) × (detail.0.status ≡ 404)) ⊎ ((e ≢ not_found) × (detail.0.status ≡ 500)))
      × (detail.1 ≡ session)
      × (detail.2 ≡ 7))
    ⊎ ((stock : Stock) × (d : StockDetail Decimal ℕ) × (old : Option (StockProfile Decimal)) × (◌≡◌
          {A = Result RepoError Stock}
          (ok bbca)
          (ok stock))
        × (detail.0.status ≡ 200)
        × (detail.0.body.payload ≡ some d)
        × (d.stock ≡ stock)
        × (d.executives ≡ [])
        × (d.news ≡ 4 ∷ [])
        × (old ≡ none)
        × IsCurrent upsert
            (λ t. none)
            net
            (λ n. n)
            stock
            (codes "BBCA")
            100
            old
            session
            7
            (d.profile, detail.1, detail.2))
get_detail-IsCurrent_example =
    get_detail-IsCurrent upsert (λ t. none) net (λ n. n) (ok bbca) (err not_found) (ok [])
      (ok (4 ∷ [])) (codes "BBCA") 100 session 7

refused_profile : (profile_answer upsert (codes "BBCA") (err (decoding [])) 7).1 ≡ 7
unfolding profile_answer
refused_profile = refl

get_ihsg-IsDaily_example :
    let text : FetchError → Text = λ e. [] in
    let decode : Text → Option (YahooResponse Decimal) = λ t. none in
    let a = (get_ihsg text decode net session).0 in
    let result = (fetch_prices decode net (codes "^JKSE") (codes "1mo") session).0 in
    ((before : List (StockPrice Decimal)) (prev last : StockPrice Decimal)
      → result ≡ ok (before ++ prev ∷ last ∷ [])
      → (a.status ≡ 200) × IsDaily (before ++ prev ∷ last ∷ []) prev last a.body.payload)
    × ((p : StockPrice Decimal)
        → result ≡ ok (p ∷ [])
        → (a.status ≡ 200) × IsSingle p a.body.payload)
    × (result ≡ ok [] → a.status ≡ 404)
    × ((e : FetchError) → result ≡ err e → a.status ≡ 500)
get_ihsg-IsDaily_example = get_ihsg-IsDaily (λ e. []) (λ t. none) net session
