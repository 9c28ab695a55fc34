-- ===== src/Lib.antt =====
-- The server of quant-indonesia-scraping collects Indonesian market news, has a language model
-- analyze it, and turns the sentiment and the prices into signals. Feeds are scraped by the ingestion
-- pipeline, each article goes through the Gemini analyzer and the sector tables into the database, and
-- the progress of a run is sent to listeners over server-sent events. Prices come from Yahoo Finance,
-- by a scheduler or a handler, or from an imported file. Signals combine the stored sentiment with
-- technical indicators into a composite score; the handlers answer from a cache of responses.
--
-- The files follow the program's parts:
--   Domain            domain/*.go: the records; a nil pointer is `none`, a time a number
--   Float             float64 as an interface with the laws of IEEE 754 that a theorem may assume, and
--                     decimals with four places that satisfy them, for the examples
--   Calendar          the calendar of UTC dates, for the code's days of a Unix time
--   Sector            pkg/sector/sector.go: the tables and IsBlacklisted, NormalizeSector,
--                     GetOfficialCompanyName
--   Quant             pkg/quant/scoring.go: ComputeComposite and its factors
--   Technical         pkg/technical/indicators.go: CalcSMA, CalcEMA, CalcRSI, CalcMACD, Analyze
--   Broadcast         pkg/broadcaster/broadcaster.go: Subscribe, Unsubscribe, Broadcast; a channel is a
--                     number with its buffer
--   HttpClient        pkg/httpclient/client.go: Get with its retries, calculateBackoff
--   Gemini            llm/gemini.go: Analyze over models and keys, callModel, parseResult
--   Config            config/config.go: getEnv, getEnvInt and APIKeys
--   Worker            ingestion/worker.go, ingestion/pipeline.go: processJob with the deduplication of
--                     pkg/hasher/hasher.go and repository/valkey/dedup.go, and the collection of
--                     results; Pool is the run of the workers as interleaved steps
--   ArticleUsecase    usecase/article_usecase.go: Ingest; Batch is ReprocessUnanalyzed
--   SignalUsecase     usecase/signal_usecase.go: GetSignals, enrichWithTechnicals, GetHistory
--   IngestionHandler  delivery/http/handler/ingestion_handler.go: Trigger, Reprocess, Cancel and the
--                     background run
--   YahooFinance      pkg/yfinance/fetcher.go: Symbols the names of quotes, Quotes the daily prices,
--                     Crumb the session, Profile the company profile with its retry
--   Response          delivery/http/handler/response.go: the envelopes of an answer
--   Handlers          delivery/http/handler: Lists and Detail the articles and stocks, with
--                     usecase/stock_usecase.go; Market the index, Health the health checks
--   ImportHandler     delivery/http/handler/import_handler.go: the price import, its CSV reader and the
--                     refresh of the quotes
--   Middleware        delivery/http/middleware: cache.go with its keys, rate_limiter.go with its visitors
--   Postgres          repository/postgres: Queries the texts and arguments of the queries, Signals and
--                     Stocks the rows they read and merge
--   Schedulers        ingestion/scheduler.go, price_scheduler.go and feed.go
-- Prelude holds the shared tests, lists, integers, texts and results, TextLaws the laws of trimming and
-- case. A part's file has its definitions; the modules below it hold larger operations or are named for
-- what they prove, and Examples runs the code at concrete inputs.
--
-- What the code cannot decide itself is a parameter: the answers of the network (HttpClient.Round,
-- Gemini.Exchange, the Yahoo answers), the clock, the random numbers, the JSON decoders, ParseFloat,
-- time.Parse, uuid.Parse, the records that encoding/csv reads, the feeds of gofeed, the state of a
-- context at each wait, the Valkey server, the token bucket of a visitor, the answers of PostgreSQL and
-- of the repositories, and whether a listener reads in time.
-- Loops run over their lists, or count down the rounds that the code's bound leaves, so no fuel can
-- run out: GET makes at most maxRetries + 1 rounds, a model gets three tries, and the loop of CalcMACD
-- len(prices) - 25 rounds. The digits of a printed number are bounded by 20; a 64-bit int has 19.
--
-- Numbers: a period, a count and a duration are natural numbers. Floats are abstract; theorems that
-- compare take the laws of IEEE 754 as a hypothesis, with NaN taken care of. Upper and lower case are
-- those of ASCII letters, which the tickers and the error texts consist of.
--
-- Not modelled: config.Load, the SQL of tags, price batches and the sentiment history, HTML and RSS
-- parsing, the SSE frames and the HTTP routing, logging and metrics.

pub mod Prelude
pub mod Float
pub mod Domain
pub mod TextLaws
pub mod Sector
pub mod Quant
pub mod Technical
pub mod Broadcast
pub mod Calendar
pub mod YahooFinance
pub mod Response
pub mod Postgres
pub mod Handlers
pub mod Schedulers
pub mod Middleware
pub mod ImportHandler
pub mod HttpClient
pub mod Gemini
pub mod ArticleUsecase
pub mod SignalUsecase
pub mod Config
pub mod Worker
pub mod IngestionHandler
