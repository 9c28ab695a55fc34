-- ===== src/ArticleUsecase/Tags.antt =====
-- Which stocks and associations the tags of an analysis lead to.
use quant_indonesia_scraping.Prelude.{
  ℕ, ◌≡◌, refl, ◌∙◌, Bool, true, false, ◌&&◌, Option, List, [], ◌∷◌, Text, text_eq, text_eq_refl,
  is_empty, if◌then◌else◌, is_nil, All, arith, Bool-cases, inl, inr,
}
use quant_indonesia_scraping.Domain.{NewsStockTag, ExtractedTag, Stock}
use quant_indonesia_scraping.Sector.{is_blacklisted, normalize_sector, get_official_company_name}
use quant_indonesia_scraping.ArticleUsecase.{
  Request, create, update, create_tags, upsert, upsert_executive, Log, is_company, is_stock,
  raw_sector, primary_symbol, stock_of, tag_of, is_executive, upsert_executives, save_executives,
  upsert_companies, process_tags, associate,
}

-- A stock as the sector tables want it: not blacklisted, with a normalized sector and the official
-- name where there is one.
pub record IsListed (s : Stock) : Type 0 where
  pub allowed : is_blacklisted s.symbol ≡ false
  pub named : is_empty s.symbol ≡ false
  pub sector : (raw : Text) × (s.sector ≡ normalize_sector s.symbol raw)
  pub name : (value : Text) × (s.company_name ≡ get_official_company_name s.symbol value)

module _ {F : Type 0} (answers : Log F → Request F → Option Text) where
  -- An Upsert of the stock was among the calls, and gave no error.
  pub backed : Text → Log F → Bool
  backed symbol [] = false
  backed symbol (create a ∷ l) = backed symbol l
  backed symbol (update a ∷ l) = backed symbol l
  backed symbol (create_tags ts ∷ l) = backed symbol l
  backed symbol (upsert_executive e ∷ l) = backed symbol l
  backed symbol (upsert s ∷ l) =
      let before = backed symbol l in
      if text_eq s.symbol symbol && is_nil (answers l (upsert s)) then true else before

  -- Every stock is listed, and every association is of a stock that was saved before it.
  abbrev pub IsSound : Log F → Type 0
  IsSound [] = Unit
  IsSound (create a ∷ l) = IsSound l
  IsSound (update a ∷ l) = IsSound l
  IsSound (create_tags ts ∷ l) =
      All (λ (t : NewsStockTag F). backed t.symbol l ≡ true) ts × IsSound l
  IsSound (upsert_executive e ∷ l) = IsSound l
  IsSound (upsert s ∷ l) = IsListed s × IsSound l

  backed_weaken :
      (symbol : Text) (s : Stock) (l : Log F)
      → backed symbol l ≡ true
      → backed symbol (upsert s ∷ l) ≡ true
  unfolding backed
  backed_weaken symbol s l h = ground (arith, h)

  backed_self :
      (s : Stock) (l : Log F)
      → is_nil (answers l (upsert s)) ≡ true
      → backed s.symbol (upsert s ∷ l) ≡ true
  unfolding backed
  backed_self s l h = ground (arith, h, text_eq_refl s.symbol)

  stock_of-IsListed :
      (raw : Text) (t : ExtractedTag F) → is_stock t ≡ true → IsListed (stock_of raw t)
  unfolding stock_of is_stock is_company
  stock_of-IsListed raw t h = record {
    allowed = ground (arith, h);
    named = ground (arith, h);
    sector = (raw, refl);
    name = (t.value, refl);
  }

  -- What the loop over the tags leaves.
  pub record IsUpserted (l : Log F) (ts : List (NewsStockTag F)) (l' : Log F) : Type 0 where
    pub sound : IsSound l'
    pub backs : All (λ (t : NewsStockTag F). backed t.symbol l' ≡ true) ts
    pub keeps : (symbol : Text) → backed symbol l ≡ true → backed symbol l' ≡ true

  upsert_companies-IsUpserted :
      (news_id : ℕ) (raw : Text) (ts : List (ExtractedTag F)) (l : Log F)
      → IsSound l
      → let (tags, l') = upsert_companies answers news_id raw ts l in IsUpserted l tags l'
  unfolding upsert_companies tag_of stock_of backed
  upsert_companies-IsUpserted news_id raw [] l h = record {
    sound = h;
    backs = tt;
    keeps = λ s k. k;
  }
  upsert_companies-IsUpserted news_id raw (t ∷ ts) l h = elim (Bool-cases (is_stock t)) [
    | inr e ↦ rw (e, upsert_companies) (upsert_companies-IsUpserted news_id raw ts l h)
    | inl e ↦
        let r : Request F = upsert (stock_of raw t) in
        let rest =
          upsert_companies-IsUpserted news_id raw ts (r ∷ l) (stock_of-IsListed raw t e, h) in
        rw (e, upsert_companies)
          (record {
            sound = rest.sound;
            backs = elim (Bool-cases (is_nil (answers l r))) [
              | inl c ↦
                  rw c (rest.keeps t.ticker_symbol (backed_self (stock_of raw t) l c), rest.backs)
              | inr c ↦ rw c rest.backs
            ];
            keeps = λ symbol k. rest.keeps symbol (backed_weaken symbol (stock_of raw t) l k);
          })
  ]

  upsert_executives-keeps :
      (symbol : Text) (ts : List (ExtractedTag F)) (l : Log F)
      → let l' = upsert_executives symbol ts l in
        (IsSound l → IsSound l') × ((s : Text) → backed s l' ≡ backed s l)
  unfolding upsert_executives backed
  upsert_executives-keeps symbol [] l = (λ h. h, λ s. refl)
  upsert_executives-keeps symbol (t ∷ ts) l = elim (Bool-cases (is_executive t)) [
    | inl e ↦ rw (e, upsert_executives) (upsert_executives-keeps symbol ts _)
    | inr e ↦ rw (e, upsert_executives) (upsert_executives-keeps symbol ts l)
  ]

  save_executives-keeps :
      (tags : List (ExtractedTag F)) (l : Log F)
      → let l' = save_executives tags l in
        (IsSound l → IsSound l') × ((s : Text) → backed s l' ≡ backed s l)
  unfolding save_executives
  save_executives-keeps tags l = elim (Bool-cases (is_empty (primary_symbol tags))) [
    | inl e ↦ rw (e, save_executives) (λ h. h, λ s. refl)
    | inr e ↦ rw (e, save_executives) (upsert_executives-keeps (primary_symbol tags) tags l)
  ]

  All-backed :
      (ts : List (NewsStockTag F)) (l l' : Log F)
      → ((s : Text) → backed s l' ≡ backed s l)
      → All (λ (t : NewsStockTag F). backed t.symbol l ≡ true) ts
      → All (λ (t : NewsStockTag F). backed t.symbol l' ≡ true) ts
  All-backed [] l l' same h = tt
  All-backed (t ∷ ts) l l' same h = (same t.symbol ∙ h.0, All-backed ts l l' same h.1)

  -- The calls for the tags of an analysis, with the associations at their end.
  pub associate-IsSound :
      (news_id : ℕ) (tags : List (ExtractedTag F)) (l : Log F)
      → IsSound l
      → let (ts, l') = process_tags answers news_id tags l in IsSound (associate answers ts l').1
  unfolding process_tags associate
  associate-IsSound news_id tags l h =
      let u = upsert_companies-IsUpserted news_id (raw_sector tags) tags l h in
      let (ts, l') = upsert_companies answers news_id (raw_sector tags) tags l in
      let k = save_executives-keeps tags l' in
      last ts (save_executives tags l') (k.0 u.sound)
        (All-backed ts l' (save_executives tags l') k.1 u.backs)
    where
      last :
          (ts : List (NewsStockTag F)) (l' : Log F)
          → IsSound l'
          → All (λ (t : NewsStockTag F). backed t.symbol l' ≡ true) ts
          → IsSound (associate answers ts l').1
      last [] l' h b = h
      last (t ∷ ts) l' h b = (b, h)
