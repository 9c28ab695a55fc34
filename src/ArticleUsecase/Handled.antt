-- ===== src/ArticleUsecase/Handled.antt =====
-- What Ingest has asked of the repositories and returns, however the calls and the analysis end.
use mathlib.Core.Path.{subst}
use quant_indonesia_scraping.Prelude.{
  ℕ, zero, suc, ◌≡◌, ◌≢◌, ◌⊎◌, refl, sym, Bool, true, false, Option, none, some, List, [], ◌∷◌,
  Text, codes, is_empty, All, All-weaken, Occurs, inl, inr, Option-cases, Bool-cases, is_nil,
  if◌then◌else◌,
}
use quant_indonesia_scraping.Domain.{
  NewsArticle, NewsStockTag, ExtractedTag, AnalysisResult, Stock, Executive,
}
use quant_indonesia_scraping.Sector.{is_blacklisted}
use quant_indonesia_scraping.ArticleUsecase.{
  Request, create, update, create_tags, upsert, upsert_executive, Log, Failure, persisting,
  updating, tagging, is_company, is_stock, is_executive, stock_of, tag_of, raw_sector,
  primary_symbol, analyzed, upsert_companies, upsert_executives, save_executives, process_tags,
  associate, save_analysis, failed_if, ingest,
}

module _ {F : Type 0} where
  -- The article with the analysis: its score and label, the time, and its summary unless that is
  -- empty; all else as it was.
  abbrev pub IsAnalyzed : ℕ → AnalysisResult F → NewsArticle F → NewsArticle F → Type 0
  IsAnalyzed now r a b =
      (b.sentiment_score ≡ some r.sentiment_score)
      × (b.sentiment_label ≡ some r.sentiment_label)
      × (b.processed_at ≡ some now)
      × (is_empty r.summary ≡ true → b.summary ≡ a.summary)
      × (is_empty r.summary ≡ false → b.summary ≡ r.summary)
      × (b.id ≡ a.id)
      × (b.url_hash ≡ a.url_hash)
      × (b.title ≡ a.title)
      × (b.url ≡ a.url)
      × (b.source ≡ a.source)
      × (b.content_raw ≡ a.content_raw)
      × (b.published_at ≡ a.published_at)
      × (b.ingested_at ≡ a.ingested_at)

  analyzed-IsAnalyzed :
      (now : ℕ) (r : AnalysisResult F) (a : NewsArticle F) → IsAnalyzed now r a (analyzed now r a)
  unfolding analyzed
  analyzed-IsAnalyzed now r a = (
    refl,
    refl,
    refl,
    (λ h. rw h refl),
    (λ h. rw h refl),
    refl,
    refl,
    refl,
    refl,
    refl,
    refl,
    refl,
    refl,
  )

  -- The calls `l'` are `l` and then only upserts, of stocks and of executives.
  pub data Tagging (l : Log F) : Log F → Type 0 where
    begins : Tagging l l
    upserts : {k : Log F} (s : Stock) → Tagging l k → Tagging l (upsert s ∷ k)
    upserts_executive :
        {k : Log F} (x : Executive) → Tagging l k → Tagging l (upsert_executive x ∷ k)

  Tagging-trans : {l k m : Log F} → Tagging l k → Tagging k m → Tagging l m
  Tagging-trans a begins = a
  Tagging-trans a (upserts s b) = upserts s (Tagging-trans a b)
  Tagging-trans a (upserts_executive x b) = upserts_executive x (Tagging-trans a b)

  Tagging-Occurs : {l k : Log F} (r : Request F) → Tagging l k → Occurs r l → Occurs r k
  Tagging-Occurs r begins o = o
  Tagging-Occurs r (upserts s t) o = let (n, at) = Tagging-Occurs r t o in (suc n, at)
  Tagging-Occurs r (upserts_executive x t) o = let (n, at) = Tagging-Occurs r t o in (suc n, at)

  -- A company with a symbol that is not blacklisted has its stock upserted.
  abbrev pub IsUpsertedIn : Log F → ExtractedTag F → Type 0
  IsUpsertedIn l t =
      (t.kind ≡ codes "company")
      → t.ticker_symbol ≢ []
      → is_blacklisted t.ticker_symbol ≡ false
      → (s : Stock) × (s.symbol ≡ t.ticker_symbol) × Occurs (upsert s) l

  IsUpsertedIn-later :
      {l k : Log F} (t : ExtractedTag F) → Tagging l k → IsUpsertedIn l t → IsUpsertedIn k t
  IsUpsertedIn-later t later h company filled listed =
      let (s, same, o) = h company filled listed in (s, same, Tagging-Occurs (upsert s) later o)

  is_stock_of :
      (t : ExtractedTag F)
      → t.kind ≡ codes "company"
      → t.ticker_symbol ≢ []
      → is_blacklisted t.ticker_symbol ≡ false
      → is_stock t ≡ true
  unfolding is_stock is_company
  is_stock_of t company filled listed =
      rw (company, listed) (rw (not_empty t.ticker_symbol filled) refl)
    where
      not_empty : (s : Text) → s ≢ [] → is_empty s ≡ false
      not_empty [] h = absurd (h refl)
      not_empty (c ∷ s) h = refl

  stock_of-symbol : (raw : Text) (t : ExtractedTag F) → (stock_of raw t).symbol ≡ t.ticker_symbol
  unfolding stock_of
  stock_of-symbol raw t = refl

  kept_own :
      (news_id : ℕ) (t : ExtractedTag F) (tags : List (NewsStockTag F)) (b : Bool)
      → All (λ (x : NewsStockTag F). x.news_id ≡ news_id) tags
      → All
          (λ (x : NewsStockTag F). x.news_id ≡ news_id)
          (if b then tag_of news_id t ∷ tags else tags)
  unfolding tag_of
  kept_own news_id t tags true h = (refl, h)
  kept_own news_id t tags false h = h

  upsert_executives-Tagging :
      (symbol : Text) (ts : List (ExtractedTag F)) (l : Log F)
      → Tagging l (upsert_executives symbol ts l)
  unfolding upsert_executives
  upsert_executives-Tagging symbol [] l = begins
  upsert_executives-Tagging symbol (t ∷ ts) l = elim (Bool-cases (is_executive t)) [
    | inl e ↦
        rw (e, upsert_executives)
          (Tagging-trans (upserts_executive _ begins) (upsert_executives-Tagging symbol ts _))
    | inr e ↦ rw (e, upsert_executives) (upsert_executives-Tagging symbol ts l)
  ]

  save_executives-Tagging :
      (ts : List (ExtractedTag F)) (l : Log F) → Tagging l (save_executives ts l)
  unfolding save_executives
  save_executives-Tagging ts l = elim (Bool-cases (is_empty (primary_symbol ts))) [
    | inl e ↦ rw (e, save_executives) begins
    | inr e ↦ rw (e, save_executives) (upsert_executives-Tagging _ ts l)
  ]

module _ {F : Type 0} (answers : Log F → Request F → Option Text) where
  -- What the loop over the tags does: its calls, the stocks that it does not skip, and the
  -- associations, which are the article's.
  abbrev LoopDone : ℕ → List (ExtractedTag F) → Log F → List (NewsStockTag F) × Log F → Type 0
  LoopDone news_id ts l (tags, k) =
      Tagging l k × All (IsUpsertedIn k) ts × All (λ (t : NewsStockTag F). t.news_id ≡ news_id) tags

  upsert_companies-skipped :
      (news_id : ℕ) (raw : Text) (t : ExtractedTag F) (ts : List (ExtractedTag F)) (l : Log F)
      → is_stock t ≡ false
      → upsert_companies answers news_id raw (t ∷ ts) l ≡ upsert_companies answers news_id raw ts l
  unfolding upsert_companies
  upsert_companies-skipped news_id raw t ts l e = rw (e, upsert_companies) refl

  upsert_companies-taken :
      (news_id : ℕ) (raw : Text) (t : ExtractedTag F) (ts : List (ExtractedTag F)) (l : Log F)
      → is_stock t ≡ true
      → let r : Request F = upsert (stock_of raw t) in
        let (tags, k) = upsert_companies answers news_id raw ts (r ∷ l) in
        upsert_companies answers news_id raw (t ∷ ts) l
        ≡ (if is_nil (answers l r) then tag_of news_id t ∷ tags else tags, k)
  unfolding upsert_companies
  upsert_companies-taken news_id raw t ts l e = rw (e, upsert_companies) refl

  upsert_companies-LoopDone :
      (news_id : ℕ) (raw : Text) (ts : List (ExtractedTag F)) (l : Log F)
      → LoopDone news_id ts l (upsert_companies answers news_id raw ts l)
  unfolding upsert_companies
  upsert_companies-LoopDone news_id raw [] l = (begins, tt, tt)
  upsert_companies-LoopDone news_id raw (t ∷ ts) l =
      let r : Request F = upsert (stock_of raw t) in
      let skipped = upsert_companies-LoopDone news_id raw ts l in
      let (later, all, own) = upsert_companies-LoopDone news_id raw ts (r ∷ l) in
      elim (Bool-cases (is_stock t)) [
        | inr e ↦
            subst (LoopDone news_id (t ∷ ts) l)
              (sym (upsert_companies-skipped news_id raw t ts l e))
              (skipped.0, ((λ a b c. cc (is_stock_of t a b c)), skipped.1), skipped.2)
        | inl e ↦
            subst (LoopDone news_id (t ∷ ts) l) (sym (upsert_companies-taken news_id raw t ts l e))
              (
                Tagging-trans (upserts (stock_of raw t) begins) later,
                (
                  (λ a b c.
                      (stock_of raw t, stock_of-symbol raw t, Tagging-Occurs r later (zero, refl))),
                  all,
                ),
                kept_own news_id t _ (is_nil (answers l r)) own,
              )
      ]

  process_tags-LoopDone :
      (news_id : ℕ) (ts : List (ExtractedTag F)) (l : Log F)
      → LoopDone news_id ts l (process_tags answers news_id ts l)
  unfolding process_tags
  process_tags-LoopDone news_id ts l =
      let (later, all, own) = upsert_companies-LoopDone news_id (raw_sector ts) ts l in
      let after =
        save_executives-Tagging ts (upsert_companies answers news_id (raw_sector ts) ts l).1 in
      (
        Tagging-trans later after,
        All-weaken (IsUpsertedIn _) (IsUpsertedIn _) ts (λ t h. IsUpsertedIn-later t after h) all,
        own,
      )

  -- The end of Ingest behind the loop: no call where there is no association, and else one that
  -- creates them all, whose error is Ingest's.
  abbrev pub IsAssociated : ℕ → Log F → Option Failure × Log F → Type 0
  IsAssociated news_id k (e, l') =
      ((e ≡ none) × (l' ≡ k))
      ⊎ ((t : NewsStockTag F) × (ts : List (NewsStockTag F)) × All
            (λ (x : NewsStockTag F). x.news_id ≡ news_id) (t ∷ ts)
          × (l' ≡ create_tags (t ∷ ts) ∷ k)
          × (((answers k (create_tags (t ∷ ts)) ≡ none) × (e ≡ none))
              ⊎ ((m : Text) × (answers k (create_tags (t ∷ ts)) ≡ some m)
                  × (e ≡ some (tagging m)))))

  associate-IsAssociated :
      (news_id : ℕ) (tags : List (NewsStockTag F)) (k : Log F)
      → All (λ (x : NewsStockTag F). x.news_id ≡ news_id) tags
      → let (e, l') = associate answers tags k in
        IsAssociated news_id k (failed_if answers tagging e, l')
  unfolding associate failed_if
  associate-IsAssociated news_id [] k own = inl (refl, refl)
  associate-IsAssociated news_id (t ∷ ts) k own = inr (
    t,
    ts,
    own,
    refl,
    elim (Option-cases (answers k (create_tags (t ∷ ts)))) [
      | inl e ↦ rw e (inl (refl, refl))
      | inr (m, e) ↦ rw e (inr (m, refl, refl))
    ],
  )

  -- What was done after the article was created without an error.
  abbrev pub IsTried :
      ℕ → Option (AnalysisResult F) → NewsArticle F → Log F → Option Failure × Log F → Type 0
  IsTried now none a l (e, l') = (e ≡ none) × (l' ≡ l)
  IsTried now (some r) a l (e, l') =
      (b : NewsArticle F) × IsAnalyzed now r a b
      × (((m : Text) × (answers l (update b) ≡ some m)
            × (e ≡ some (updating m))
            × (l' ≡ update b ∷ l))
          ⊎ ((k : Log F) × (answers l (update b) ≡ none)
              × Tagging (update b ∷ l) k
              × All (IsUpsertedIn k) r.tags
              × IsAssociated a.id k (e, l')))

  save_analysis-IsTried :
      (now : ℕ) (r : AnalysisResult F) (a : NewsArticle F) (l : Log F)
      → IsTried now (some r) a l (save_analysis answers now r a l)
  unfolding save_analysis
  save_analysis-IsTried now r a l =
      let b = analyzed now r a in
      let same = analyzed-IsAnalyzed now r a in
      (
        b,
        same,
        elim (Option-cases (answers l (update b))) [
          | inr (m, e) ↦ rw (e, save_analysis) (inl (m, refl, refl, refl))
          | inl e ↦
              let (later, all, own) = process_tags-LoopDone a.id r.tags (update b ∷ l) in
              rw (e, save_analysis) (inr (_, refl, later, all, associate-IsAssociated a.id _ _ own))
        ],
      )

  -- Ingest creates the article before anything else, and returns the error where that fails. A
  -- failed analysis is no error, and the article stays as it was created. Else the article is
  -- updated with the score, the label and a summary that is not empty, and marked as processed now;
  -- an error of the update is returned, and nothing follows. After it every company of the analysis
  -- that has a symbol and is not blacklisted has its stock upserted, and only stocks and executives
  -- are; what may follow is one call that creates associations of this article, whose error is
  -- returned.
  pub ingest-Handled :
      (now : ℕ) (analyze : Text → Text → Option (AnalysisResult F)) (a : NewsArticle F) (l : Log F)
      → let (e, l') = ingest answers now analyze (some a) l in
        ((m : Text) × (answers l (create a) ≡ some m)
          × (e ≡ some (persisting m))
          × (l' ≡ create a ∷ l))
        ⊎ ((answers l (create a) ≡ none)
            × IsTried now (analyze a.title a.content_raw) a (create a ∷ l) (e, l'))
  unfolding ingest
  ingest-Handled now analyze a l = elim (Option-cases (answers l (create a))) [
    | inr (m, e) ↦ rw (e, ingest) (inl (m, refl, refl, refl))
    | inl e ↦ rw (e, ingest) (inr (refl, tried (analyze a.title a.content_raw)))
  ]
    where
      tried :
          (o : Option (AnalysisResult F))
          → IsTried now o a (create a ∷ l) (elim o [
            | none ↦ (none, create a ∷ l)
            | some r ↦ save_analysis answers now r a (create a ∷ l)
          ])
      tried none = (refl, refl)
      tried (some r) = save_analysis-IsTried now r a (create a ∷ l)
