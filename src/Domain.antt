-- ===== src/Domain.antt =====
-- The data of domain/: articles, tags, stocks, executives, signals and the errors.
-- A `time.Time` is a number of nanoseconds, a `uuid.UUID` a number, a nil pointer is `none`.
use quant_indonesia_scraping.Prelude.{ℕ, ℤ, Text, Option, List}

-- domain/signal.go
pub data SignalType : Type 0 where
  buy sell hold : SignalType

pub record StockSignal (F : Type 0) : Type 0 where
  pub symbol : Text
  pub company_name : Text
  pub sector : Text
  pub signal : SignalType
  pub average_score : F
  pub article_count : ℕ
  pub bullish_articles : ℕ
  pub bearish_articles : ℕ
  pub neutral_articles : ℕ
  pub period : Text
  pub generated_at : ℕ
  pub ma20 : Option F
  pub ma50 : Option F
  pub rsi14 : Option F
  pub last_price : Option F
  pub price_change_pct : Option F
  pub technical_signal : Option SignalType  -- `none` is the empty string
  pub composite_score : F
  pub confidence : F

pub record SignalFilter : Type 0 where
  pub symbol : Text
  pub sector : Text
  pub period : Text

-- domain/article.go
pub record NewsStockTag (F : Type 0) : Type 0 where
  pub news_id : ℕ
  pub symbol : Text
  pub relevance_score : F

pub record NewsArticle (F : Type 0) : Type 0 where
  pub id : ℕ
  pub url_hash : Text
  pub title : Text
  pub url : Text
  pub source : Text
  pub summary : Text
  pub content_raw : Text
  pub sentiment_score : Option F
  pub sentiment_label : Option Text
  pub published_at : Option ℕ
  pub ingested_at : ℕ
  pub processed_at : Option ℕ
  pub created_at : ℕ
  pub updated_at : ℕ
  pub tags : List (NewsStockTag F)

-- domain/llm.go
pub record ExtractedTag (F : Type 0) : Type 0 where
  pub kind : Text  -- the field Type: "company", "executive" or "sector"
  pub value : Text
  pub ticker_symbol : Text
  pub relevance_score : F

pub record AnalysisResult (F : Type 0) : Type 0 where
  pub sentiment_score : F
  pub sentiment_label : Text
  pub summary : Text
  pub tags : List (ExtractedTag F)

-- domain/stock.go, domain/executive.go
pub record Stock : Type 0 where
  pub symbol : Text
  pub company_name : Text
  pub sector : Text

pub record Executive : Type 0 where
  pub symbol : Text
  pub name : Text
  pub title : Text

-- domain/stock_price.go
pub record StockPrice (F : Type 0) : Type 0 where
  pub symbol : Text
  pub date : Text
  pub close_price : F
  pub open_price : Option F
  pub high_price : Option F
  pub low_price : Option F
  pub volume : Option ℤ

pub record BrokerSummary (F : Type 0) : Type 0 where
  pub symbol : Text
  pub date : Text
  pub net_foreign_buy_sell : F
  pub top_buyer : Text
  pub top_seller : Text

pub record ArticleFilter : Type 0 where
  pub symbol : Text
  pub sentiment_label : Option Text
  pub source : Text
  pub from_date : Option ℕ
  pub to_date : Option ℕ
  pub limit : ℤ
  pub offset : ℤ

-- domain/stock_profile.go
pub record StockProfile (F : Type 0) : Type 0 where
  pub symbol : Text
  pub description : Text
  pub industry : Text
  pub founded_year : Option ℤ
  pub city : Text
  pub country : Text
  pub employees : Option ℤ
  pub website : Text
  pub market_cap : Option ℤ
  pub shares_outstanding : Option ℤ
  pub float_shares : Option ℤ
  pub trailing_pe : Option F
  pub price_to_book : Option F
  pub trailing_eps : Option F
  pub dividend_yield : Option F
  pub week52_high : Option F
  pub week52_low : Option F
  pub total_revenue : Option ℤ
  pub net_income : Option ℤ
  pub total_debt : Option ℤ
  pub total_assets : Option ℤ
  pub return_on_equity : Option F
  pub debt_to_equity : Option F
  pub fetched_at : ℕ
