-- ===== src/Postgres/Signals.antt =====
-- SignalRepo.GetStockSignals: the signals made of the aggregated rows.
use quant_indonesia_scraping.Prelude.{
  ℕ, ◌<◌, ◌≡◌, ◌↔◌, false, ◌&&◌, none, List, map, Text, codes, is_empty, ltb, pos, negsuc, Result,
  ok, err, if◌then◌else◌,
}
use quant_indonesia_scraping.Float.{Float64, ◌≼◌}
use quant_indonesia_scraping.Domain.{StockSignal, SignalType, buy, sell, hold, SignalFilter}
use quant_indonesia_scraping.Postgres.{Reply, RepoError, collect}

-- A row of the query.
pub record SignalRow (F : Type 0) : Type 0 where
  pub symbol : Text
  pub company_name : Text
  pub sector : Text
  pub average_score : F
  pub article_count : ℕ
  pub bullish_count : ℕ
  pub bearish_count : ℕ
  pub neutral_count : ℕ

abbrev pub period_or_default : Text → Text
period_or_default period = if is_empty period then codes "7d" else period

module _ {F : Type 0} ⦃d : Float64 F⦄ where
  unfoldable pub recommend : F → ℕ → ℕ → SignalType
  recommend score bullish bearish =
      if d.le (d.lit (pos 20) 2) score && ltb bearish bullish
      then buy
      else if d.le score (d.lit (negsuc 19) 2) && ltb bullish bearish
      then sell
      else hold

  unfoldable pub signal_of : SignalFilter → ℕ → SignalRow F → StockSignal F
  unfolding recommend
  signal_of filter now r =
      let zero_f = d.lit (pos 0) 0 in
      record {
        symbol = r.symbol;
        company_name = r.company_name;
        sector = r.sector;
        signal = recommend r.average_score r.bullish_count r.bearish_count;
        average_score = r.average_score;
        article_count = r.article_count;
        bullish_articles = r.bullish_count;
        bearish_articles = r.bearish_count;
        neutral_articles = r.neutral_count;
        period = period_or_default filter.period;
        generated_at = now;
        ma20 = none;
        ma50 = none;
        rsi14 = none;
        last_price = none;
        price_change_pct = none;
        technical_signal = none;
        composite_score = zero_f;
        confidence = zero_f;
      }

  unfoldable pub get_stock_signals :
      SignalFilter → ℕ → Reply (SignalRow F) → Result RepoError (List (StockSignal F))
  unfolding signal_of
  get_stock_signals filter now reply = elim (collect reply) [
    | err e ↦ err e
    | ok rs ↦ ok (map (signal_of filter now) rs)
  ]

  -- BUY exactly for a score of at least 0.20 with more bullish than bearish articles, SELL exactly
  -- for one of at most -0.20 with more bearish ones.
  abbrev pub IsRecommended : StockSignal F → Type 0
  IsRecommended s =
      ((s.signal ≡ buy)
        ↔ ((d.lit (pos 20) 2 ≼ s.average_score) × (s.bearish_articles < s.bullish_articles)))
      × ((s.signal ≡ sell)
          ↔ ((s.average_score ≼ d.lit (negsuc 19) 2) × (s.bullish_articles < s.bearish_articles)))
      × (is_empty s.period ≡ false)

  -- What a signal takes from its row, and what a row gives to its signal.
  abbrev pub figures : StockSignal F → Text × F × ℕ × ℕ
  figures s = (s.symbol, s.average_score, s.bullish_articles, s.bearish_articles)

  abbrev pub row_figures : SignalRow F → Text × F × ℕ × ℕ
  row_figures r = (r.symbol, r.average_score, r.bullish_count, r.bearish_count)
