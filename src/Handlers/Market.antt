-- ===== src/Handlers/Market.antt =====
-- StockHandler.GetIHSG: the composite index with its daily change and the series of its closes.
use quant_indonesia_scraping.Prelude.{
  ◌≡◌, refl, ◌++◌, true, false, Option, none, some, List, [], ◌∷◌, map, Text, codes, ℤ, pos, Result,
  ok, err, if◌then◌else◌,
}
use quant_indonesia_scraping.Float.{Float64}
use quant_indonesia_scraping.Domain.{StockPrice}
use quant_indonesia_scraping.Response.{
  Answer, fails, succeeds, code_internal, code_not_found, new_success_response, new_error_response,
}
use quant_indonesia_scraping.YahooFinance.{Request, Reply, Session, FetchError}
use quant_indonesia_scraping.YahooFinance.Quotes.{YahooResponse, fetch_prices}

pub record IndexData (F : Type 0) : Type 0 where
  pub symbol : Text
  pub name : Text
  pub price : F
  pub change : F
  pub change_pct : F
  pub prev_close : F
  pub date : Text
  pub sparkline : List F
  pub spark_dates : List Text
  pub open_price : Option F
  pub high : Option F
  pub low : Option F
  pub volume : Option ℤ

module _ {F : Type 0} where
  -- prices[len(prices)-1], of a first price and the others
  unfoldable pub latest_price : StockPrice F → List (StockPrice F) → StockPrice F
  latest_price p [] = p
  latest_price p (q ∷ qs) = latest_price q qs

  -- prices[len(prices)-2]
  unfoldable pub price_before : StockPrice F → List (StockPrice F) → Option (StockPrice F)
  price_before p [] = none
  price_before p (q ∷ []) = some p
  price_before p (q ∷ r ∷ qs) = price_before q (r ∷ qs)

module _ {F : Type 0} ⦃d : Float64 F⦄ where
  -- prevClose, changeAbs and changePct
  unfoldable pub daily_change : F → Option (StockPrice F) → F × F × F
  daily_change latest none = let zero_f = d.lit (pos 0) 0 in (zero_f, zero_f, zero_f)
  daily_change latest (some p) =
      let change = d.sub latest p.close_price in
      let pct =
        if d.lt (d.lit (pos 0) 0) p.close_price
        then d.mul (d.div change p.close_price) (d.lit (pos 100) 0)
        else d.lit (pos 0) 0 in
      (p.close_price, change, pct)

  unfoldable pub index_data : StockPrice F → List (StockPrice F) → IndexData F
  unfolding latest_price price_before daily_change
  index_data p ps =
      let latest = latest_price p ps in
      let (prev_close, change, pct) = daily_change latest.close_price (price_before p ps) in
      record {
        symbol = codes "IHSG";
        name = codes "Jakarta Composite Index";
        price = latest.close_price;
        change = change;
        change_pct = pct;
        prev_close = prev_close;
        date = latest.date;
        sparkline = map (λ (q : StockPrice F). q.close_price) (p ∷ ps);
        spark_dates = map (λ (q : StockPrice F). q.date) (p ∷ ps);
        open_price = latest.open_price;
        high = latest.high_price;
        low = latest.low_price;
        volume = latest.volume;
      }

  unfoldable pub index_answer :
      (FetchError → Text) → Result FetchError (List (StockPrice F)) → Answer (IndexData F)
  unfolding index_data
  index_answer text (err e) =
      fails 500 code_internal (codes "failed to fetch IHSG data: " ++ text e)
  index_answer text (ok []) = fails 404 code_not_found (codes "no IHSG data available")
  index_answer text (ok (p ∷ ps)) = succeeds 200 (index_data p ps) none

  unfoldable pub get_ihsg :
      (FetchError → Text)
      → (Text → Option (YahooResponse F))
      → (List Request → Request → Reply)
      → Session
      → Answer (IndexData F) × Session
  unfolding index_answer
  get_ihsg text decode net y =
      let (result, y') = fetch_prices decode net (codes "^JKSE") (codes "1mo") y in
      (index_answer text result, y')

module _ {F : Type 0} (prev last : StockPrice F) where
  latest_price-last :
      (p : StockPrice F) (before : List (StockPrice F))
      → latest_price p (before ++ prev ∷ last ∷ []) ≡ last
  unfolding latest_price
  latest_price-last p [] = refl
  latest_price-last p (q ∷ before) = latest_price-last q before

  price_before-last :
      (p : StockPrice F) (before : List (StockPrice F))
      → price_before p (before ++ prev ∷ last ∷ []) ≡ some prev
  unfolding price_before
  price_before-last p [] = refl
  price_before-last p (q ∷ []) = refl
  price_before-last p (q ∷ r ∷ before) = price_before-last q (r ∷ before)

module _ {F : Type 0} ⦃d : Float64 F⦄ where
  -- The data for the prices: those of the last day, against the close of the day before.
  abbrev pub IsDaily :
      List (StockPrice F) → StockPrice F → StockPrice F → Option (IndexData F) → Type 0
  IsDaily prices prev last o =
      (i : IndexData F) × (o ≡ some i)
      × (i.price ≡ last.close_price)
      × (i.date ≡ last.date)
      × (i.prev_close ≡ prev.close_price)
      × (i.change ≡ d.sub last.close_price prev.close_price)
      × (d.lt (d.lit (pos 0) 0) prev.close_price ≡ false → i.change_pct ≡ d.lit (pos 0) 0)
      × (d.lt (d.lit (pos 0) 0) prev.close_price ≡ true
          → i.change_pct
            ≡ d.mul (d.div (d.sub last.close_price prev.close_price) prev.close_price)
                (d.lit (pos 100) 0))
      × (i.sparkline ≡ map (λ (q : StockPrice F). q.close_price) prices)

  index_answer-IsDaily :
      (text : FetchError → Text) (before : List (StockPrice F)) (prev last : StockPrice F)
      → let prices = before ++ prev ∷ last ∷ [] in
        let a = index_answer text (ok prices) in
        (a.status ≡ 200) × IsDaily prices prev last a.body.payload
  unfolding index_answer index_data daily_change new_success_response
  index_answer-IsDaily text [] prev last = (
    refl,
    (
      index_data prev (last ∷ []),
      refl,
      refl,
      refl,
      refl,
      refl,
      (λ h. rw h refl),
      (λ h. rw h refl),
      refl,
    ),
  )
  index_answer-IsDaily text (p ∷ before) prev last =
      let at_end = latest_price-last prev last p before in
      let ahead = price_before-last prev last p before in
      (
        refl,
        (
          index_data p (before ++ prev ∷ last ∷ []),
          refl,
          rw at_end refl,
          rw at_end refl,
          rw at_end (rw ahead refl),
          rw at_end (rw ahead refl),
          (λ h. rw at_end (rw ahead (rw h refl))),
          (λ h. rw at_end (rw ahead (rw h refl))),
          refl,
        ),
      )

  -- The data for a single price, which has no change.
  abbrev pub IsSingle : StockPrice F → Option (IndexData F) → Type 0
  IsSingle p o =
      (i : IndexData F) × (o ≡ some i)
      × (i.price ≡ p.close_price)
      × (i.date ≡ p.date)
      × (i.prev_close ≡ d.lit (pos 0) 0)
      × (i.change ≡ d.lit (pos 0) 0)
      × (i.change_pct ≡ d.lit (pos 0) 0)
      × (i.sparkline ≡ p.close_price ∷ [])

  index_answer-IsSingle :
      (text : FetchError → Text) (p : StockPrice F)
      → let a = index_answer text (ok (p ∷ [])) in (a.status ≡ 200) × IsSingle p a.body.payload
  unfolding index_answer index_data daily_change latest_price price_before new_success_response
  index_answer-IsSingle text p = (refl, (index_data p [], refl, refl, refl, refl, refl, refl, refl))

  -- The answer for the composite index is given at the last of the prices that Yahoo gave, with the
  -- change against the one before, which is also given in percent of that one where that is
  -- positive, and as 0 percent else, and the closes of all of them. A single price has no change.
  -- Without prices the status is 404, with an error 500.
  pub get_ihsg-IsDaily :
      (text : FetchError → Text) (decode : Text → Option (YahooResponse F))
      (net : List Request → Request → Reply) (y : Session)
      → let a = (get_ihsg text decode net y).0 in
        let result = (fetch_prices decode net (codes "^JKSE") (codes "1mo") y).0 in
        ((before : List (StockPrice F)) (prev last : StockPrice F)
          → result ≡ ok (before ++ prev ∷ last ∷ [])
          → (a.status ≡ 200) × IsDaily (before ++ prev ∷ last ∷ []) prev last a.body.payload)
        × ((p : StockPrice F) → result ≡ ok (p ∷ []) → (a.status ≡ 200) × IsSingle p a.body.payload)
        × (result ≡ ok [] → a.status ≡ 404)
        × ((e : FetchError) → result ≡ err e → a.status ≡ 500)
  unfolding get_ihsg index_answer new_error_response
  get_ihsg-IsDaily text decode net y = (
    (λ before prev last h. rw h (index_answer-IsDaily text before prev last)),
    (λ p h. rw h (index_answer-IsSingle text p)),
    (λ h. rw h refl),
    λ e h. rw h refl,
  )
