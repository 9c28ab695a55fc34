-- ===== src/Technical/Series.antt =====
-- The smoothed indicators of pkg/technical can be kept up to date one price at a time: what the code
-- computes again from the whole series is one step from the value of the series before.
use mathlib.Core.List.{foldl, foldl-append}
use quant_indonesia_scraping.Prelude.{
  ℕ, zero, suc, ◌+◌, ◌≤◌, ◌<◌, ◌≡◌, ◌⊎◌, refl, sym, none, some, List, [], ◌∷◌, ◌++◌, pos, length,
  take, drop, arith, length-append, ap,
}
use quant_indonesia_scraping.Float.{Float64}
use quant_indonesia_scraping.Technical.{
  sum_from, calc_ema, ema_step, multiplier, changes_from, smooth, wilder, rsi_of, calc_rsi,
}

module _ {ℓ} {A : Type ℓ} where
  pub take-append_le : (n : ℕ) (xs ys : List A) → n ≤ length xs → take n (xs ++ ys) ≡ take n xs
  take-append_le zero xs ys h = refl
  take-append_le (suc n) [] ys h = absurd (omega arith)
  take-append_le (suc n) (x ∷ xs) ys h = ap (λ t. x ∷ t) (take-append_le n xs ys (omega arith))

  pub drop-append_le :
      (n : ℕ) (xs ys : List A) → n ≤ length xs → drop n (xs ++ ys) ≡ drop n xs ++ ys
  drop-append_le zero xs ys h = refl
  drop-append_le (suc n) [] ys h = absurd (omega arith)
  drop-append_le (suc n) (x ∷ xs) ys h = drop-append_le n xs ys (omega arith)

module _ {F : Type 0} ⦃d : Float64 F⦄ where
  open d use {sub}

  abbrev ema_start : List F → ℕ → F
  ema_start prices period =
      d.div (sum_from (d.lit (pos 0) 0) (take period prices)) (d.of_nat period)

  calc_ema-fits :
      (prices : List F) (period : ℕ) {ema : F}
      → calc_ema prices period ≡ some ema
      → period ≤ length prices
  unfolding calc_ema
  calc_ema-fits prices period h = ground arith

  -- The last price of a series that begins with `q`.
  abbrev pub last_or : F → List F → F
  last_or q [] = q
  last_or q (p ∷ ps) = last_or p ps

  take_all : (xs : List F) → take (length xs) xs ≡ xs
  take_all [] = refl
  take_all (x ∷ xs) = ap (λ t. x ∷ t) (take_all xs)

  drop_all : (xs : List F) → drop (length xs) xs ≡ []
  drop_all [] = refl
  drop_all (x ∷ xs) = drop_all xs

  -- A series of exactly `period` prices has their mean as its EMA.
  calc_ema-mean :
      (prices : List F) (period : ℕ)
      → 0 < period
      → length prices ≡ period
      → calc_ema prices period
        ≡ some (d.div (foldl d.add (d.lit (pos 0) 0) prices) (d.of_nat period))
  unfolding calc_ema
  calc_ema-mean prices period h e = rw (sym e) (ground (arith, take_all prices, drop_all prices))

  calc_ema-short :
      (prices : List F) (period : ℕ)
      → (period ≡ 0) ⊎ (length prices < period)
      → calc_ema prices period ≡ none
  unfolding calc_ema
  calc_ema-short prices period h = ground (arith, h)

  calc_ema-next :
      (prices : List F) (p : F) (period : ℕ) {ema : F}
      → calc_ema prices period ≡ some ema
      → calc_ema (prices ++ (p ∷ [])) period
        ≡ some (d.add (d.mul (d.sub p ema) (d.div (d.lit (pos 20) 1) (d.of_nat (period + 1)))) ema)
  unfolding calc_ema
  calc_ema-next prices p period h =
      let fits = calc_ema-fits prices period h in
      let last = p ∷ [] in
      ground (
        arith,
        length-append prices last,
        take-append_le period prices last fits,
        drop-append_le period prices last fits,
        foldl-append (ema_step (multiplier period)) (ema_start prices period) (drop period prices)
            last,
      )

  -- What the EMA of every series is, one price at a time: there is none for a period of 0 or for
  -- fewer prices than the period; for as many it is their mean; and with one more price p it goes
  -- from e to (p - e) * (2.0 / (period + 1)) + e.
  pub calc_ema-append :
      (prices : List F) (period : ℕ)
      → ((period ≡ 0) ⊎ (length prices < period) → calc_ema prices period ≡ none)
        × (0 < period
            → length prices ≡ period
            → calc_ema prices period
              ≡ some (d.div (foldl d.add (d.lit (pos 0) 0) prices) (d.of_nat period)))
        × ((p ema : F)
            → calc_ema prices period ≡ some ema
            → calc_ema (prices ++ (p ∷ [])) period
              ≡ some (
                  d.add
                    (d.mul (d.sub p ema) (d.div (d.lit (pos 20) 1) (d.of_nat (period + 1))))
                    ema))
  calc_ema-append prices period = (
    calc_ema-short prices period,
    calc_ema-mean prices period,
    λ p ema. calc_ema-next prices p period,
  )

  changes_from-append :
      (q : F) (ps : List F) (p : F)
      → changes_from q (ps ++ (p ∷ [])) ≡ changes_from q ps ++ (sub p (last_or q ps) ∷ [])
  changes_from-append q [] p = refl
  changes_from-append q (r ∷ ps) p = ap (λ t. sub r q ∷ t) (changes_from-append r ps p)

  length-changes_from : (q : F) (ps : List F) → length (changes_from q ps) ≡ length ps
  length-changes_from q [] = refl
  length-changes_from q (p ∷ ps) = ap suc (length-changes_from p ps)

  -- The averages of a series that is long enough follow Wilder's recurrence: with one more price
  -- they are smoothed by its change from the price before.
  pub wilder-append :
      (q : F) (ps : List F) (p : F) (period : ℕ)
      → period ≤ length ps
      → wilder (q ∷ ps ++ (p ∷ [])) period
        ≡ smooth period (wilder (q ∷ ps) period) (sub p (last_or q ps))
  unfolding wilder
  wilder-append q ps p period h =
      let moves = changes_from q ps in
      let move = sub p (last_or q ps) ∷ [] in
      let fits : period ≤ length moves = rw (length-changes_from q ps) h in
      rw
        (
          changes_from-append q ps p,
          take-append_le period moves move fits,
          drop-append_le period moves move fits,
          foldl-append,
        )
        refl

  -- The RSI of a series with one more price is computed from the averages of the series before.
  pub calc_rsi-append :
      (q : F) (ps : List F) (p : F) (period : ℕ)
      → 0 < period
      → period ≤ length ps
      → calc_rsi (q ∷ ps ++ (p ∷ [])) period
        ≡ some (rsi_of (smooth period (wilder (q ∷ ps) period) (sub p (last_or q ps))))
  unfolding calc_rsi
  calc_rsi-append q ps p period positive h =
      ground (arith, wilder-append q ps p period h, length-append ps (p ∷ []))
