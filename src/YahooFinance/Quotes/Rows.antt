-- ===== src/YahooFinance/Quotes/Rows.antt =====
-- What the rows of FetchPrices are: the positive closes of the quote, in order.
use quant_indonesia_scraping.Prelude.{
  ℕ, suc, ◌+◌, ◌≡◌, ◌⊎◌, refl, false, none, some, Option, List, [], ◌∷◌, Text, get_elem?, All,
  All-weaken, Occurs, zero, ℤ, pos, Option-cases, Bool-cases, inl, inr, arith,
}
use quant_indonesia_scraping.Float.{Float64}
use quant_indonesia_scraping.Domain.{StockPrice}
use quant_indonesia_scraping.Calendar.{unix_date}
use quant_indonesia_scraping.YahooFinance.Quotes.{Quote, value_at, price_of, row_at, price_rows}

value_at-some :
    {A : Type 0} (xs : List (Option A)) (n : ℕ) (a : A)
    → value_at xs n ≡ some a
    → get_elem? xs n ≡ some (some a)
value_at-some xs n a h = elim (Option-cases (get_elem? xs n)) [
  | inl e ↦ cc (h, e)
  | inr (v, e) ↦ cc (h, e)
]

module _ {F : Type 0} ⦃d : Float64 F⦄ where
  -- The row `n` of the quote, the k-th from `i` on, gives the price: under the symbol and the UTC
  -- date of its timestamp, with the values of that row and a close that is not 0 or less.
  abbrev pub IsRow : Text → Quote F → ℕ → List ℤ → StockPrice F → Type 0
  IsRow symbol q i stamps p =
      (k : ℕ) × (n : ℕ) × (ts : ℤ) × (close : F) × (n ≡ i + k)
      × (get_elem? stamps k ≡ some ts)
      × (get_elem? q.close n ≡ some (some close))
      × (d.le close (d.lit (pos 0) 0) ≡ false)
      × (p ≡ record {
        symbol = symbol;
        date = unix_date ts;
        close_price = close;
        open_price = value_at q.open_price n;
        high_price = value_at q.high n;
        low_price = value_at q.low n;
        volume = value_at q.volume n;
      })

  price_of_lem :
      (symbol : Text) (q : Quote F) (i : ℕ) (ts : ℤ) (close : F)
      → price_of symbol q i ts close ≡ record {
        symbol = symbol;
        date = unix_date ts;
        close_price = close;
        open_price = value_at q.open_price i;
        high_price = value_at q.high i;
        low_price = value_at q.low i;
        volume = value_at q.volume i;
      }
  unfolding price_of
  price_of_lem symbol q i ts close = refl

  row_at-price :
      (symbol : Text) (q : Quote F) (i : ℕ) (ts : ℤ) (close : F)
      → value_at q.close i ≡ some close
      → d.le close (d.lit (pos 0) 0) ≡ false
      → row_at symbol q i ts ≡ some (price_of symbol q i ts close)
  unfolding row_at
  row_at-price symbol q i ts close e h = rw (e, row_at) (rw h refl)

  row_at-some :
      (symbol : Text) (q : Quote F) (i : ℕ) (ts : ℤ)
      → (row_at symbol q i ts ≡ none)
        ⊎ ((close : F) × (value_at q.close i ≡ some close)
            × (d.le close (d.lit (pos 0) 0) ≡ false)
            × (row_at symbol q i ts ≡ some (price_of symbol q i ts close)))
  unfolding row_at
  row_at-some symbol q i ts = elim (Option-cases (value_at q.close i)) [
    | inl e ↦ inl (rw (e, row_at) refl)
    | inr (close, e) ↦ elim (Bool-cases (d.le close (d.lit (pos 0) 0))) [
      | inl h ↦ inl (rw (e, row_at) (rw h refl))
      | inr h ↦ inr (close, e, h, row_at-price symbol q i ts close e h)
    ]
  ]

  IsRow-later :
      (symbol : Text) (q : Quote F) (i : ℕ) (ts : ℤ) (rest : List ℤ) (p : StockPrice F)
      → IsRow symbol q (i + 1) rest p
      → IsRow symbol q i (ts ∷ rest) p
  IsRow-later symbol q i ts rest p (k, n, t, close, at, stamp, there, h, e) =
      (suc k, n, t, close, omega arith, stamp, there, h, e)

  pub price_rows-IsRow :
      (symbol : Text) (q : Quote F) (i : ℕ) (stamps : List ℤ)
      → All (IsRow symbol q i stamps) (price_rows symbol q i stamps)
  unfolding price_rows
  price_rows-IsRow symbol q i [] = tt
  price_rows-IsRow symbol q i (ts ∷ rest) =
      let later =
        All-weaken (IsRow symbol q (i + 1) rest) (IsRow symbol q i (ts ∷ rest))
          (price_rows symbol q (i + 1) rest) (IsRow-later symbol q i ts rest)
          (price_rows-IsRow symbol q (i + 1) rest) in
      elim (row_at-some symbol q i ts) [
        | inl e ↦ rw (e, price_rows) later
        | inr (close, there, h, e) ↦
            rw (e, price_rows)
              (
                (
                  zero,
                  i,
                  ts,
                  close,
                  omega arith,
                  refl,
                  value_at-some q.close i close there,
                  h,
                  price_of_lem symbol q i ts close,
                ),
                later,
              )
      ]

  Occurs-later :
      (symbol : Text) (q : Quote F) (i : ℕ) (ts : ℤ) (rest : List ℤ) (p : StockPrice F)
      → Occurs p (price_rows symbol q (i + 1) rest)
      → Occurs p (price_rows symbol q i (ts ∷ rest))
  unfolding price_rows
  Occurs-later symbol q i ts rest p (k, at) = elim (Option-cases (row_at symbol q i ts)) [
    | inl e ↦ rw (e, price_rows) (k, at)
    | inr (p', e) ↦ rw (e, price_rows) (suc k, at)
  ]

  -- Every such row is there.
  pub price_rows_complete :
      (symbol : Text) (q : Quote F) (i : ℕ) (stamps : List ℤ) (p : StockPrice F)
      → IsRow symbol q i stamps p
      → Occurs p (price_rows symbol q i stamps)
  unfolding price_rows
  price_rows_complete symbol q i [] p (k, n, t, close, at, stamp, there, h, e) = cc
  price_rows_complete symbol q i (ts ∷ rest) p (zero, n, t, close, at, stamp, there, h, e) =
      rw (first, price_rows) (zero, refl)
    where
      same : n ≡ i
      same = omega arith

      first : row_at symbol q i ts ≡ some p
      first = cc (
        row_at-price symbol q n t close (rw (there, value_at) refl) h,
        price_of_lem symbol q n t close,
        same,
        stamp,
        e,
      )
  price_rows_complete symbol q i (ts ∷ rest) p (suc k, n, t, close, at, stamp, there, h, e) =
      Occurs-later symbol q i ts rest p (
        price_rows_complete symbol q (i + 1) rest p
          (k, n, t, close, omega arith, stamp, there, h, e))
