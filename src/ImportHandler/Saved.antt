-- ===== src/ImportHandler/Saved.antt =====
-- What an import saves, and when it is answered with success.
use quant_indonesia_scraping.Prelude.{
  ◌≤◌, ◌<◌, ◌≡◌, ◌⊎◌, refl, ap, ◌∙◌, ok-injective, sym, err-injective, true, false, Option, none,
  some, List, [], ◌∷◌, Text, codes, contains, length, All, Result, ok, err, Bool-cases, inl, inr,
  arith,
}
use quant_indonesia_scraping.Float.{Float64}
use quant_indonesia_scraping.Domain.{StockPrice}
use quant_indonesia_scraping.Response.{Answer, new_error_response, new_success_response}
use quant_indonesia_scraping.YahooFinance.{Request, Reply, Session, FetchError}
use quant_indonesia_scraping.YahooFinance.Quotes.{YahooResponse, fetch_prices}
use quant_indonesia_scraping.ImportHandler.{
  PriceImportJson, FileField, opened, missing, unopened, ImportRequest, Payload, Messages,
  price_of_json, file_records, body_records, records_of, saved_answer, import_records,
  import_prices, save_fetched, fetched_answer, fetch_yahoo_prices,
}
use quant_indonesia_scraping.ImportHandler.Csv.{Record, CsvError, parse_prices_csv}
use quant_indonesia_scraping.ImportHandler.Csv.Clean.{IsSymbol, IsTrimmed, parse_prices_csv-clean}

-- A refusal is a failure.
abbrev pub IsRefusal : {F : Type 0} → Answer (Payload F) → Type 0
IsRefusal a = (a.body.success ≡ false) × (400 ≤ a.status)

module _ {F S A : Type 0} (save : List A → S → Option Text × S) where
  -- A success has saved the records, of which there is at least one, without an error; a failure
  -- has a status from 400 on and saved nothing, or the save itself failed.
  abbrev pub IsSaved : {E : Type 0} → Result E (List A) → S → Answer (Payload F) × S → Type 0
  IsSaved records s (a, s') =
      ((a.body.success ≡ true)
        × (a.status ≡ 200)
        × ((xs : List A) × (records ≡ ok xs) × (0 < length xs) × (save xs s ≡ (none, s'))))
      ⊎ ((a.body.success ≡ false)
          × (400 ≤ a.status)
          × ((s' ≡ s)
              ⊎ ((xs : List A) × (e : Text) × (records ≡ ok xs) × (save xs s ≡ (some e, s')))))

  import_records-IsSaved :
      (kind : Text) (records : Result (Answer (Payload F)) (List A)) (s : S)
      → ((a : Answer (Payload F)) → records ≡ err a → IsRefusal a)
      → IsSaved records s (import_records save kind records s)
  unfolding import_records new_error_response new_success_response saved_answer
  import_records-IsSaved kind (err a) s refusal =
      let (f, st) = refusal a refl in inr (f, st, inl refl)
  import_records-IsSaved kind (ok []) s refusal = inr (refl, omega arith, inl refl)
  import_records-IsSaved kind (ok (x ∷ xs)) s refusal = saved (save (x ∷ xs) s) refl
    where
      saved :
          (o : Option Text × S)
          → save (x ∷ xs) s ≡ o
          → IsSaved {E = Answer (Payload F)}
              (ok (x ∷ xs))
              s
              (saved_answer save kind (length (x ∷ xs)) o)
      saved (none, s') e = inl (refl, refl, (x ∷ xs, refl, omega arith, e))
      saved (some m, s') e = inr (refl, omega arith, inr (x ∷ xs, m, refl, e))

module _ {F A : Type 0} (m : Messages)
    (parse : List (Option Record) → Result CsvError (List A)) where
  file_records-IsRefusal :
      (f : FileField) (a : Answer (Payload F)) → file_records m parse f ≡ err a → IsRefusal a
  unfolding file_records new_error_response
  file_records-IsRefusal missing a = λ h. rw (sym (err-injective h)) (refl, omega arith)
  file_records-IsRefusal (unopened e) a = λ h. rw (sym (err-injective h)) (refl, omega arith)
  file_records-IsRefusal (opened rs) a = read (parse rs) refl
    where
      read :
          (o : Result CsvError (List A))
          → parse rs ≡ o
          → file_records m parse (opened rs) ≡ err a
          → IsRefusal a
      read (err e) eq = rw (eq, file_records) (λ h. rw (sym (err-injective h)) (refl, omega arith))
      read (ok xs) eq = rw (eq, file_records) (λ h. cc)

  body_records-IsRefusal :
      {J : Type 0} (convert : J → A) (b : Result Text (List J)) (a : Answer (Payload F))
      → body_records convert b ≡ err a
      → IsRefusal a
  unfolding body_records new_error_response
  body_records-IsRefusal convert (err e) a h = rw (sym (err-injective h)) (refl, omega arith)
  body_records-IsRefusal convert (ok xs) a h = cc

  records_of-IsRefusal :
      {J : Type 0} (convert : J → A) (r : ImportRequest J) (a : Answer (Payload F))
      → records_of m parse convert r ≡ err a
      → IsRefusal a
  unfolding records_of
  records_of-IsRefusal convert r a =
      elim (Bool-cases (contains r.content_type (codes "multipart/form-data"))) [
        | inl e ↦ rw (e, records_of) (file_records-IsRefusal r.file a)
        | inr e ↦ rw (e, records_of) (body_records-IsRefusal convert r.body a)
      ]

  file_records-opened :
      (f : FileField) (xs : List A)
      → ◌≡◌ {A = Result (Answer (Payload F)) (List A)} (file_records m parse f) (ok xs)
      → (rs : List (Option Record)) × (f ≡ opened rs) × (parse rs ≡ ok xs)
  unfolding file_records
  file_records-opened missing xs = λ h. cc
  file_records-opened (unopened e) xs = λ h. cc
  file_records-opened (opened rs) xs = parsed (parse rs) refl
    where
      parsed :
          (o : Result CsvError (List A))
          → parse rs ≡ o
          → ◌≡◌ {A = Result (Answer (Payload F)) (List A)}
              (file_records m parse (opened rs))
              (ok xs)
          → (qs : List (Option Record)) × (opened rs ≡ opened qs) × (parse qs ≡ ok xs)
      parsed (err e) eq = rw (eq, file_records) (λ h. cc)
      parsed (ok ys) eq =
          rw (eq, file_records) (λ h. (rs, refl, eq ∙ ap (λ zs. ok zs) (ok-injective h)))

  -- The records of an upload are what the parser makes of the file.
  records_of-upload :
      {J : Type 0} (convert : J → A) (r : ImportRequest J) (xs : List A)
      → contains r.content_type (codes "multipart/form-data") ≡ true
      → ◌≡◌ {A = Result (Answer (Payload F)) (List A)} (records_of m parse convert r) (ok xs)
      → (rs : List (Option Record)) × (r.file ≡ opened rs) × (parse rs ≡ ok xs)
  unfolding records_of
  records_of-upload convert r xs e = rw (e, records_of) (file_records-opened r.file xs)

module _ {F S : Type 0} (m : Messages) (parse_float : Text → Option F)
    (upsert_batch : List (StockPrice F) → S → Option Text × S) where
  -- A price import is answered with success where it saved its records, at least one, without an
  -- error. Else its status is 400 or more, and the database was left alone or answered the save with
  -- an error. What an uploaded file gave has a symbol in upper case and a date in each record, both
  -- without white space around them.
  pub import_prices-IsSaved :
      (r : ImportRequest (PriceImportJson F)) (s : S)
      → let records = records_of {F = F} m (parse_prices_csv parse_float) price_of_json r in
        IsSaved upsert_batch records s (import_prices m parse_float upsert_batch r s)
        × ((xs : List (StockPrice F))
            → contains r.content_type (codes "multipart/form-data") ≡ true
            → records ≡ ok xs
            → All (λ (p : StockPrice F). IsSymbol p.symbol × IsTrimmed p.date) xs)
  unfolding import_prices
  import_prices-IsSaved r s = (
    import_records-IsSaved upsert_batch (codes "price") _ s
        (records_of-IsRefusal m (parse_prices_csv parse_float) price_of_json r),
    λ xs e h.
        let (rs, eq, h') = records_of-upload m _ price_of_json r xs e h in
        (parse_prices_csv-clean parse_float rs xs h').0,
  )

module _ {F S : Type 0} (upsert_batch : List (StockPrice F) → S → Option Text × S) where
  save_fetched-IsSaved :
      (m : Messages) (symbol : Text) (result : Result FetchError (List (StockPrice F))) (s : S)
      → IsSaved upsert_batch result s (save_fetched upsert_batch m symbol result s)
  unfolding save_fetched fetched_answer new_error_response new_success_response
  save_fetched-IsSaved m symbol (err e) s = inr (refl, omega arith, inl refl)
  save_fetched-IsSaved m symbol (ok []) s = inr (refl, omega arith, inl refl)
  save_fetched-IsSaved m symbol (ok (p ∷ ps)) s = saved (upsert_batch (p ∷ ps) s) refl
    where
      saved :
          (o : Option Text × S)
          → upsert_batch (p ∷ ps) s ≡ o
          → IsSaved upsert_batch {E = FetchError} (ok (p ∷ ps)) s (fetched_answer symbol (p ∷ ps) o)
      saved (none, s') e = inl (refl, refl, (p ∷ ps, refl, omega arith, e))
      saved (some m, s') e = inr (refl, omega arith, inr (p ∷ ps, m, refl, e))

  -- A fetch by symbol is answered with success where the prices that came from Yahoo, at least one,
  -- were saved without an error. Else its status is 400 or more, and the database was left alone or
  -- answered the save with an error; without a symbol nothing is asked.
  pub fetch_yahoo_prices-IsSaved :
      ⦃d : Float64 F⦄ (decode : Text → Option (YahooResponse F))
      (net : List Request → Request → Reply) (m : Messages) (symbol range : Text) (y : Session)
      (s : S)
      → let (answer, y', s') = fetch_yahoo_prices upsert_batch decode net m symbol range y s in
        IsSaved upsert_batch (fetch_prices decode net symbol range y).0 s (answer, s')
        ⊎ ((symbol ≡ []) × IsRefusal answer × (y' ≡ y) × (s' ≡ s))
  unfolding fetch_yahoo_prices new_error_response
  fetch_yahoo_prices-IsSaved decode net m [] range y s = inr (refl, (refl, omega arith), refl, refl)
  fetch_yahoo_prices-IsSaved decode net m (c ∷ cs) range y s =
      inl (save_fetched-IsSaved m (c ∷ cs) _ s)
