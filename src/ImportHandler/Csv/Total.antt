-- ===== src/ImportHandler/Csv/Total.antt =====
-- No record of a CSV file is asked for a field that it does not have.
use quant_indonesia_scraping.Prelude.{
  ℕ, zero, suc, if◌then◌else◌, ◌+◌, ◌<◌, ◌≡◌, ◌≢◌, ◌∷◌, [], refl, sym, ap, Bool, true, false,
  Option, none, some, List, Text, codes, text_eq, to_upper, to_lower, trim_space, length, get_elem?,
  ◌==◌, ==_iff, Result, ok, err, some-injective, Bool-cases, Option-cases, inl, inr, arith,
}
use quant_indonesia_scraping.ImportHandler.Csv.{
  Record, CsvError, out_of_range, column, PriceColumns, required, price_indices, broker_indices,
  price_columns, fields, keep_row, read_rows, price_row, parse_prices_csv, BrokerColumns,
  broker_columns, broker_row, parse_broker_csv,
}

column-lt : (name : Text) (i j : ℕ) (cs : Record) → column name i cs ≡ some j → j < i + length cs
unfolding column
column-lt name i j [] = λ h. cc
column-lt name i j (c ∷ cs) = elim (Option-cases (column name (i + 1) cs)) [
  | inl e ↦ rw (e, column) (own (text_eq (to_lower (trim_space c)) name))
  | inr (k, e) ↦
      rw (e, column) (λ h. later k (column-lt name (i + 1) k cs e) (some-injective _ _ h))
]
  where
    own : (b : Bool) → (if b then some i else none) ≡ some j → j < i + suc (length cs)
    own true h = rw (sym (some-injective _ _ h)) (omega arith)
    own false h = cc

    later : (k : ℕ) → k < i + 1 + length cs → k ≡ j → j < i + suc (length cs)
    later k h e = omega arith

get_elem?-some :
    {A : Type 0} (xs : List A) (i : ℕ) → i < length xs → (x : A) × (get_elem? xs i ≡ some x)
get_elem?-some [] i h = absurd (omega arith)
get_elem?-some (x ∷ xs) zero h = (x, refl)
get_elem?-some (x ∷ xs) (suc i) h = get_elem?-some xs i (omega arith)

-- With its three columns within the record, a row has its fields.
fields-some :
    (s d c : ℕ) (r : Record)
    → s < length r
    → d < length r
    → c < length r
    → (f : Text × Text × Text) × (fields s d c r ≡ some f)
unfolding fields
fields-some s d c r hs hd hc =
    let (a, ea) = get_elem?-some r s hs in
    let (b, eb) = get_elem?-some r d hd in
    let (v, ev) = get_elem?-some r c hc in
    ((to_upper (trim_space a), trim_space b, trim_space v), rw (ea, fields) (rw eb (rw ev refl)))

-- The column is one of the first `n`, where there is one.
abbrev IsWithin : ℕ → Option ℕ → Type 0
IsWithin n o = (j : ℕ) → o ≡ some j → j < n

required-lt :
    (n : ℕ) (os od oc oa : Option ℕ) (s d c : ℕ)
    → IsWithin n os
    → IsWithin n od
    → IsWithin n oc
    → IsWithin n oa
    → required os od oc oa ≡ some (s, d, c)
    → (s < n) × (d < n) × (c < n)
unfolding required
required-lt n (some a) (some b) (some v) oa s d c hs hd hc ha h = (
  hs s (ap (λ t. some t.0) (some-injective _ _ h)),
  hd d (ap (λ t. some t.1) (some-injective _ _ h)),
  hc c (ap (λ t. some t.2) (some-injective _ _ h)),
)
required-lt n (some a) (some b) none (some v) s d c hs hd hc ha h = (
  hs s (ap (λ t. some t.0) (some-injective _ _ h)),
  hd d (ap (λ t. some t.1) (some-injective _ _ h)),
  ha c (ap (λ t. some t.2) (some-injective _ _ h)),
)
required-lt n (some a) (some b) none none s d c hs hd hc ha h = cc
required-lt n (some a) none oc oa s d c hs hd hc ha h = cc
required-lt n none od oc oa s d c hs hd hc ha h = cc

module _ {A : Type 0} (n : ℕ) (row : Record → Option (Option A)) where
  pub read_rows-total :
      ((r : Record) → length r ≡ n → row r ≢ none)
      → (rs : List (Option Record)) → read_rows n row rs ≢ err out_of_range
  unfolding read_rows
  read_rows-total f [] = λ h. cc
  read_rows-total f (none ∷ rs) = λ h. cc
  read_rows-total f (some r ∷ rs) = elim (Bool-cases (length r == n)) [
    | inr e ↦ rw (e, read_rows) (λ h. cc)
    | inl e ↦
        rw (e, read_rows)
          (kept (row r) (read_rows n row rs) (f r ((==_iff (length r) n).0 e))
            (read_rows-total f rs))
  ]
    where
      kept :
          (o : Option (Option A)) (rest : Result CsvError (List A))
          → o ≢ none
          → rest ≢ err out_of_range
          → keep_row n row o rest ≢ err out_of_range
      kept none rest ho hr h = ho refl
      kept (some none) rest ho hr h = hr h
      kept (some (some a)) (err e) ho hr h = hr h
      kept (some (some a)) (ok ys) ho hr h = cc

column-IsWithin : (name : Text) (header : Record) → IsWithin (length header) (column name 0 header)
column-IsWithin name header j h = omega (arith, column-lt name 0 j header h)

price_columns-lt :
    (header : Record) (c : PriceColumns)
    → price_columns header ≡ some c
    → (c.symbol < length header) × (c.date < length header) × (c.close < length header)
unfolding price_columns price_indices
price_columns-lt header c = elim (Option-cases (price_indices header)) [
  | inl e ↦ rw (e, price_columns) (λ h. cc)
  | inr ((s, d, v), e) ↦
      rw (e, price_columns)
        (λ h.
          let (hs, hd, hv) =
            required-lt (length header) _ _ _ _ s d v (column-IsWithin (codes "symbol") header)
              (column-IsWithin (codes "date") header) (column-IsWithin (codes "close_price") header)
              (column-IsWithin (codes "close") header) e in
          let e' = some-injective _ _ h in
          rw (sym (ap (λ (q : PriceColumns). q.symbol) e')) (
            rw (sym (ap (λ (q : PriceColumns). q.date) e'))
              (rw (sym (ap (λ (q : PriceColumns). q.close) e')) (hs, hd, hv))))
]

broker_columns-lt :
    (header : Record) (c : BrokerColumns)
    → broker_columns header ≡ some c
    → (c.symbol < length header) × (c.date < length header) × (c.net < length header)
unfolding broker_columns broker_indices
broker_columns-lt header c = elim (Option-cases (broker_indices header)) [
  | inl e ↦ rw (e, broker_columns) (λ h. cc)
  | inr ((s, d, v), e) ↦
      rw (e, broker_columns)
        (λ h.
          let (hs, hd, hv) =
            required-lt (length header) _ _ _ _ s d v (column-IsWithin (codes "symbol") header)
              (column-IsWithin (codes "date") header)
              (column-IsWithin (codes "net_foreign_buy_sell") header) (λ j e. cc) e in
          let e' = some-injective _ _ h in
          rw (sym (ap (λ (q : BrokerColumns). q.symbol) e')) (
            rw (sym (ap (λ (q : BrokerColumns). q.date) e'))
              (rw (sym (ap (λ (q : BrokerColumns). q.net) e')) (hs, hd, hv))))
]

module _ {F : Type 0} (parse_float : Text → Option F) where
  price_row-some :
      (c : PriceColumns) (r : Record)
      → c.symbol < length r
      → c.date < length r
      → c.close < length r
      → price_row parse_float c r ≢ none
  unfolding price_row
  price_row-some c r hs hd hc =
      let (f, e) = fields-some c.symbol c.date c.close r hs hd hc in rw (e, price_row) (λ h. cc)

  broker_row-some :
      (c : BrokerColumns) (r : Record)
      → c.symbol < length r
      → c.date < length r
      → c.net < length r
      → broker_row parse_float c r ≢ none
  unfolding broker_row
  broker_row-some c r hs hd hc =
      let (f, e) = fields-some c.symbol c.date c.net r hs hd hc in rw (e, broker_row) (λ h. cc)

  parse_prices_csv-total :
      (header : Record) (rs : List (Option Record))
      → parse_prices_csv parse_float (some header ∷ rs) ≢ err out_of_range
  unfolding parse_prices_csv
  parse_prices_csv-total header rs = elim (Option-cases (price_columns header)) [
    | inl e ↦ rw (e, parse_prices_csv) (λ h. cc)
    | inr (c, e) ↦
        let (hs, hd, hc) = price_columns-lt header c e in
        rw (e, parse_prices_csv)
          (read_rows-total (length header) (price_row parse_float c)
            (λ r same. price_row-some c r (omega arith) (omega arith) (omega arith)) rs)
  ]

  parse_broker_csv-total :
      (header : Record) (rs : List (Option Record))
      → parse_broker_csv parse_float (some header ∷ rs) ≢ err out_of_range
  unfolding parse_broker_csv
  parse_broker_csv-total header rs = elim (Option-cases (broker_columns header)) [
    | inl e ↦ rw (e, parse_broker_csv) (λ h. cc)
    | inr (c, e) ↦
        let (hs, hd, hc) = broker_columns-lt header c e in
        rw (e, parse_broker_csv)
          (read_rows-total (length header) (broker_row parse_float c)
            (λ r same. broker_row-some c r (omega arith) (omega arith) (omega arith)) rs)
  ]

  -- Importing never asks a record for a field that it does not have, whatever the file holds: every
  -- file of prices or broker summaries is read or refused with an error.
  pub parse_csv-total :
      (rs : List (Option Record))
      → (parse_prices_csv parse_float rs ≢ err out_of_range)
        × (parse_broker_csv parse_float rs ≢ err out_of_range)
  unfolding parse_prices_csv parse_broker_csv
  parse_csv-total [] = ((λ h. cc), (λ h. cc))
  parse_csv-total (none ∷ rs) = ((λ h. cc), (λ h. cc))
  parse_csv-total (some header ∷ rs) =
      (parse_prices_csv-total header rs, parse_broker_csv-total header rs)
