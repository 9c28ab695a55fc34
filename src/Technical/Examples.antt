-- ===== src/Technical/Examples.antt =====
-- Short series of prices over decimals.
use mathlib.Core.List.{foldl}
use quant_indonesia_scraping.Prelude.{
  ℕ, zero, suc, ◌+◌, ◌*◌, ◌<◌, ◌≡◌, ◌⊎◌, length, refl, none, some, List, [], ◌∷◌, ◌++◌, pos,
}
use quant_indonesia_scraping.Float.Decimal.{Decimal, num, decimal}
use quant_indonesia_scraping.Domain.{hold}
use quant_indonesia_scraping.Technical.{
  TechnicalResult, calc_ema, calc_rsi, indicators, analyze, calc_sma, calc_macd,
  compute_technical_signal,
}
use quant_indonesia_scraping.Technical.Series.{calc_ema-append}

abbrev price : ℕ → Decimal
price n = num (pos (n * 10_000))

abbrev three : List Decimal
three = price 10 ∷ price 12 ∷ price 11 ∷ []

-- `a`, `a + 1`, … : n prices.
abbrev rising : ℕ → ℕ → List Decimal
rising zero a = []
rising (suc n) a = price a ∷ rising n (suc a)

calc_ema-append_example :
    (◌≡◌ {A = ℕ} 3 0 ⊎ (length three < 3) → calc_ema three 3 ≡ none)
    × (0 < 3
        → length three ≡ 3
        → calc_ema three 3 ≡ some (decimal.div (foldl decimal.add (price 0) three) (price 3)))
    × ((p ema : Decimal)
        → calc_ema three 3 ≡ some ema
        → calc_ema (three ++ (p ∷ [])) 3
          ≡ some (
              decimal.add
                (decimal.mul (decimal.sub p ema) (decimal.div (decimal.lit (pos 20) 1) (price 4)))
                ema))
calc_ema-append_example = calc_ema-append three 3

-- Sixteen falling prices: the RSI is 0.
abbrev falling : ℕ → ℕ → List Decimal
falling zero a = []
falling (suc n) a = price (a + n) ∷ falling n a

abbrev slump : TechnicalResult Decimal
slump = record {
  ma20 = some (price 100);
  ma50 = some (price 90);
  rsi14 = some (price 20);
  macd_line = none;
  macd_signal = none;
  macd_hist = none;
  last_price = price 99;
  price_change = price 0;
  signal = hold;
}

abbrev peak : TechnicalResult Decimal
peak = record slump { ma50 = some (price 110); rsi14 = some (price 85) }

abbrev three_result : TechnicalResult Decimal
three_result = record (indicators three (price 12) (price 11)) { signal = hold }

analyze-three : analyze three ≡ some three_result
unfolding analyze compute_technical_signal calc_sma calc_rsi calc_macd
analyze-three = refl
