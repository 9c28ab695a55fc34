-- ===== src/ImportHandler/Csv/Clean.antt =====
-- What an import from a CSV file contains, and that no record makes it panic.
use quant_indonesia_scraping.Prelude.{
  ℕ, suc, ◌<◌, ◌≤◌, ◌≡◌, ◌∷◌, [], refl, sym, ap, if◌then◌else◌, Bool, true, false, ◌||◌, Option,
  none, some, List, Text, is_empty, to_upper, trim_space, length, get_elem?, ◌==◌, All, Result, ok,
  err, ok-injective, some-injective, Bool-cases, Option-cases, inl, inr, arith,
}
use quant_indonesia_scraping.TextLaws.{to_upper_idem, trim_space_idem, trim_space-upper}
use quant_indonesia_scraping.Domain.{StockPrice}
use quant_indonesia_scraping.ImportHandler.Csv.{
  Record, CsvError, PriceColumns, price_columns, fields, keep_row, read_rows, price_of_record,
  price_at, price_row, parse_prices_csv,
}

-- Not empty, without white space around it.
abbrev pub IsTrimmed : Text → Type 0
IsTrimmed t = (is_empty t ≡ false) × (trim_space t ≡ t)

-- A symbol as the database has it: trimmed and in upper case.
abbrev pub IsSymbol : Text → Type 0
IsSymbol t = IsTrimmed t × (to_upper t ≡ t)

trim-upper : (t : Text) → trim_space (to_upper (trim_space t)) ≡ to_upper (trim_space t)
trim-upper t = rw (trim_space-upper (trim_space t)) (rw (trim_space_idem t) refl)

-- The fields are those of some texts, trimmed.
fields-trimmed :
    (s d c : ℕ) (r : Record) (symbol date value : Text)
    → fields s d c r ≡ some (symbol, date, value)
    → (trim_space symbol ≡ symbol) × (to_upper symbol ≡ symbol) × (trim_space date ≡ date)
unfolding fields
fields-trimmed s d c r symbol date value =
    go (get_elem? r s) (get_elem? r d) (get_elem? r c) refl refl refl
  where
    go :
        (os od oc : Option Text)
        → get_elem? r s ≡ os
        → get_elem? r d ≡ od
        → get_elem? r c ≡ oc
        → fields s d c r ≡ some (symbol, date, value)
        → (trim_space symbol ≡ symbol) × (to_upper symbol ≡ symbol) × (trim_space date ≡ date)
    go none od oc es ed ec = rw (es, fields) (λ h. cc)
    go (some a) none oc es ed ec = rw (es, fields) (rw ed (λ h. cc))
    go (some a) (some b) none es ed ec = rw (es, fields) (rw ed (rw ec (λ h. cc)))
    go (some a) (some b) (some v) es ed ec =
        rw (es, fields)
          (rw ed (
            rw ec (λ h. (
              cc (h, trim-upper a),
              cc (h, to_upper_idem (trim_space a)),
              cc (h, trim_space_idem b),
            ))))

module _ {A : Type 0} (n : ℕ) (row : Record → Option (Option A)) where
  -- A list that the loop gives is kept from its rows, in order.
  pub read_rows-All :
      (P : A → Type 0)
      → ((r : Record) (a : A) → row r ≡ some (some a) → P a)
      → (rs : List (Option Record)) (xs : List A) → read_rows n row rs ≡ ok xs
      → All P xs × (length xs ≤ length rs)
  unfolding read_rows
  read_rows-All P f [] [] = λ h. (tt, omega arith)
  read_rows-All P f [] (x ∷ xs) = λ h. cc
  read_rows-All P f (none ∷ rs) xs = λ h. cc
  read_rows-All P f (some r ∷ rs) xs = elim (Bool-cases (length r == n)) [
    | inr e ↦ rw (e, read_rows) (λ h. cc)
    | inl e ↦ rw (e, read_rows) (kept (row r) (read_rows n row rs) refl (read_rows-All P f rs))
  ]
    where
      kept :
          (o : Option (Option A)) (rest : Result CsvError (List A))
          → row r ≡ o
          → ((ys : List A) → rest ≡ ok ys → All P ys × (length ys ≤ length rs))
          → keep_row n row o rest ≡ ok xs
          → All P xs × (length xs ≤ suc (length rs))
      kept none rest ho hr h = cc
      kept (some none) rest ho hr h = let (all, short) = hr xs h in (all, omega arith)
      kept (some (some a)) (err e) ho hr h = cc
      kept (some (some a)) (ok ys) ho hr h =
          let (all, short) = hr ys refl in rw (sym (ok-injective h)) ((f r a ho, all), omega arith)

module _ {F : Type 0} (parse_float : Text → Option F) where
  price_at-clean :
      (c : PriceColumns) (r : Record) (symbol date value : Text) (p : StockPrice F)
      → price_at parse_float c r (symbol, date, value) ≡ some p
      → (p.symbol ≡ symbol) × (p.date ≡ date) × (is_empty symbol ≡ false) × (is_empty date ≡ false)
  unfolding price_at price_of_record
  price_at-clean c r symbol date value p = priced (parse_float value) refl
    where
      made :
          (close : F) (empty_symbol empty_date : Bool)
          → is_empty symbol ≡ empty_symbol
          → is_empty date ≡ empty_date
          → (if empty_symbol || empty_date
              then none
              else some (price_of_record parse_float c r symbol date close))
            ≡ some p
          → (p.symbol ≡ symbol)
            × (p.date ≡ date)
            × (is_empty symbol ≡ false)
            × (is_empty date ≡ false)
      made close true ed hs hd h = cc
      made close false true hs hd h = cc
      made close false false hs hd h =
          let e = sym (some-injective _ _ h) in
          (ap (λ (q : StockPrice F). q.symbol) e, ap (λ (q : StockPrice F). q.date) e, hs, hd)

      priced :
          (o : Option F)
          → parse_float value ≡ o
          → price_at parse_float c r (symbol, date, value) ≡ some p
          → (p.symbol ≡ symbol)
            × (p.date ≡ date)
            × (is_empty symbol ≡ false)
            × (is_empty date ≡ false)
      priced none e = rw (e, price_at) (λ h. cc)
      priced (some close) e =
          rw (e, price_at) (made close (is_empty symbol) (is_empty date) refl refl)

  price_row-clean :
      (c : PriceColumns) (r : Record) (p : StockPrice F)
      → price_row parse_float c r ≡ some (some p)
      → IsSymbol p.symbol × IsTrimmed p.date
  unfolding price_row
  price_row-clean c r p = elim (Option-cases (fields c.symbol c.date c.close r)) [
    | inl e ↦ rw (e, price_row) (λ h. cc)
    | inr ((symbol, date, value), e) ↦
        rw (e, price_row)
          (λ h.
            let (ts, us, td) = fields-trimmed c.symbol c.date c.close r symbol date value e in
            let (es, ed, ns, nd) = price_at-clean c r symbol date value p (some-injective _ _ h) in
            rw es (rw ed (((ns, ts), us), (nd, td))))
  ]

  -- Every price of an imported file has a symbol and a date, both without white space around them,
  -- the symbol in upper case, and there are fewer prices than records in the file.
  pub parse_prices_csv-clean :
      (rs : List (Option Record)) (ps : List (StockPrice F))
      → parse_prices_csv parse_float rs ≡ ok ps
      → All (λ (p : StockPrice F). IsSymbol p.symbol × IsTrimmed p.date) ps
        × (length ps < length rs)
  unfolding parse_prices_csv
  parse_prices_csv-clean [] ps = λ h. cc
  parse_prices_csv-clean (none ∷ rs) ps = λ h. cc
  parse_prices_csv-clean (some header ∷ rs) ps = elim (Option-cases (price_columns header)) [
    | inl e ↦ rw (e, parse_prices_csv) (λ h. cc)
    | inr (c, e) ↦
        rw (e, parse_prices_csv)
          (λ h.
            let (all, short) =
              read_rows-All (length header) (price_row parse_float c)
                (λ (p : StockPrice F). IsSymbol p.symbol × IsTrimmed p.date) (price_row-clean c) rs
                ps h in
            (all, omega arith))
  ]
