-- ===== src/Worker/Dedup.antt =====
-- What a job does with the deduplication cache.
use quant_indonesia_scraping.Prelude.{
  ℕ, ◌+◌, ◌≤◌, ◌<◌, ◌≡◌, ◌⊎◌, refl, ap, sym, ◌∙◌, Bool, true, false, Option, none, some, [], ◌++◌,
  Text, codes, to_lower, trim_space, arith, inl, inr, Option-cases, is_nil, is_some,
}
use quant_indonesia_scraping.Domain.{NewsArticle}
use quant_indonesia_scraping.Worker.{
  FeedItem, md5_hash, dedup_ttl, dedup_key, Valkey, IsRemembering, JobError, dedup_failed,
  duplicate_url, scrape_failed, JobResult, dedup_exists, dedup_set, stored_or, refused,
  scrape_and_mark, process_job, build_article,
}

-- The same URL, up to case and white space at its ends.
abbrev pub IsSameUrl : Text → Text → Type 0
IsSameUrl u w = to_lower (trim_space u) ≡ to_lower (trim_space w)

exists-answers : (o : Option Bool) → (o ≡ none) ⊎ ((o ≡ some true) ⊎ (o ≡ some false))
exists-answers none = inl refl
exists-answers (some true) = inr (inl refl)
exists-answers (some false) = inr (inr refl)

-- A result has either an article or an error.
abbrev pub IsSettled : {F : Type 0} → JobResult F → Type 0
IsSettled r = is_some r.article ≡ is_nil r.err

err_of : {F : Type 0} (r : JobResult F) → IsSettled r → r.article ≡ none → is_some r.err ≡ true
err_of r h e = ground (arith, h)

-- Why a job gives no article, by what the cache answers.
abbrev pub IsRefused : (Text → Text ⊎ Text) → FeedItem → Option Bool → Option JobError → Type 0
IsRefused scrape item none e = e ≡ some dedup_failed
IsRefused scrape item (some true) e = e ≡ some duplicate_url
IsRefused scrape item (some false) e =
    (m : Text) × (scrape item.url ≡ inl m) × (e ≡ some (scrape_failed m))

-- The article of a feed's item, before its analysis.
abbrev pub IsArticleOf :
    {F : Type 0} → (Text → Text) → ℕ → ℕ → FeedItem → Text → NewsArticle F → Type 0
IsArticleOf digest id now item content a =
    (a.id ≡ id)
    × (a.url_hash ≡ digest (to_lower (trim_space item.url)))
    × (a.title ≡ item.title)
    × (a.url ≡ item.url)
    × (a.source ≡ item.source)
    × (a.summary ≡ item.summary)
    × (a.content_raw ≡ content)
    × (a.published_at ≡ item.published_at)
    × (a.ingested_at ≡ now)
    × (a.sentiment_score ≡ none)
    × (a.sentiment_label ≡ none)
    × (a.processed_at ≡ none)
    × (a.tags ≡ [])

-- What the cache answers for a hash: not seen without a client, and else what the server says.
abbrev pub IsLookedUp : {S : Type 0} → Valkey S → Bool → S → ℕ → Text → Option Bool → Type 0
IsLookedUp v false s now hash seen = seen ≡ some false
IsLookedUp v true s now hash seen = seen ≡ v.exists s now (codes "dedup:url:" ++ hash)

dedup_exists-IsLookedUp :
    {S : Type 0} (v : Valkey S) (has_client : Bool) (s : S) (now : ℕ) (hash : Text)
    → IsLookedUp v has_client s now hash (dedup_exists v has_client s now hash)
unfolding dedup_exists
dedup_exists-IsLookedUp v false s now hash = refl
dedup_exists-IsLookedUp v true s now hash = refl

-- The cache after the key of a URL was set, or as it was where there is no client or the server
-- refuses.
abbrev pub IsMarked : {S : Type 0} → Valkey S → Bool → ℕ → Text → S → S → Type 0
IsMarked {S = S} v has_client now hash s s' =
    (has_client ≡ false → s' ≡ s)
    × (has_client ≡ true → v.set_ex s now (codes "dedup:url:" ++ hash) 604_800 ≡ none → s' ≡ s)
    × ((t : S)
        → has_client ≡ true
        → v.set_ex s now (codes "dedup:url:" ++ hash) 604_800 ≡ some t
        → s' ≡ t)

dedup_set-IsMarked :
    {S : Type 0} (v : Valkey S) (has_client : Bool) (now : ℕ) (hash : Text) (s : S)
    → IsMarked v has_client now hash s (dedup_set v has_client s now hash)
unfolding dedup_set stored_or
dedup_set-IsMarked v false now hash s = ((λ h. refl), (λ h k. cc), λ t h k. cc)
dedup_set-IsMarked v true now hash s = ((λ h. cc), (λ h k. rw k refl), λ t h k. rw k refl)

IsMarked-keeps :
    {S : Type 0} (v : Valkey S) (remembers : IsRemembering v) (has_client : Bool) (now t : ℕ)
    (k hash : Text) (s s' : S)
    → now ≤ t
    → v.exists s t k ≡ some true
    → IsMarked v has_client now hash s s'
    → v.exists s' t k ≡ some true
IsMarked-keeps v remembers false now t k hash s s' h m (off, failed, done) = rw (off refl) m
IsMarked-keeps v remembers true now t k hash s s' h m (off, failed, done) =
    let set = v.set_ex s now (dedup_key hash) dedup_ttl in
    elim (Option-cases set) [
      | inl e ↦ rw (failed refl e) m
      | inr (t', e) ↦
          rw (done t' refl e) (remembers.keeps s t' now t k (dedup_key hash) dedup_ttl e h m)
    ]

module _ {S F : Type 0} (v : Valkey S) (digest : Text → Text) where
  build_article-IsArticleOf :
      (has_client : Bool) (id now : ℕ) (item : FeedItem) (content : Text)
      → IsArticleOf {F = F} digest id now item content
          (build_article v digest has_client id now item content)
  unfolding build_article md5_hash
  build_article-IsArticleOf has_client id now item content =
      (refl, refl, refl, refl, refl, refl, refl, refl, refl, refl, refl, refl, refl)

  -- How a job ends, where the cache answers `seen` for its URL.
  abbrev pub IsEnded :
      Bool → ℕ → ℕ → (Text → Text ⊎ Text) → FeedItem → Option Bool → S → JobResult F × S → Type 0
  IsEnded has_client id now scrape item seen s (r, s') =
      IsSettled r
      × (r.url ≡ item.url)
      × (is_some r.err ≡ true → s' ≡ s)
      × (((r.article ≡ none) × IsRefused scrape item seen r.err)
          ⊎ ((content : Text) × (a : NewsArticle F) × (seen ≡ some false)
              × (scrape item.url ≡ inr content)
              × (r.article ≡ some a)
              × IsArticleOf digest id now item content a
              × IsMarked v has_client now (digest (to_lower (trim_space item.url))) s s'))

  scrape_and_mark-IsEnded :
      (has_client : Bool) (id now : ℕ) (scrape : Text → Text ⊎ Text) (item : FeedItem) (s : S)
      → IsEnded has_client id now scrape item
          (some false)
          s
          (scrape_and_mark v digest has_client id now item (scrape item.url) s)
  unfolding scrape_and_mark refused md5_hash
  scrape_and_mark-IsEnded has_client id now scrape item s = scraped (scrape item.url) refl
    where
      scraped :
          (o : Text ⊎ Text)
          → scrape item.url ≡ o
          → IsEnded has_client id now scrape item
              (some false)
              s
              (scrape_and_mark v digest has_client id now item o s)
      scraped (inl m) e = (refl, refl, (λ h. refl), inl (refl, (m, e, refl)))
      scraped (inr content) e = (
        refl,
        refl,
        (λ h. cc),
        inr (
          content,
          build_article v digest has_client id now item content,
          refl,
          e,
          refl,
          build_article-IsArticleOf has_client id now item content,
          dedup_set-IsMarked v has_client now (digest (to_lower (trim_space item.url))) s,
        ),
      )

  -- A job ends by what the cache answers for the hash of its URL in lower case and without white
  -- space around it. If the cache fails, has the URL, or the scraper fails, that is its error, and
  -- nothing is marked, so that the URL is tried again. Else, and then always, it gives the article,
  -- with the item's fields, the scraped content and the hash, unprocessed, and the hash is marked in
  -- the cache for a week, where the cache can be reached. It never gives both. The result has the job's URL.
  pub process_job-IsSettled :
      (has_client : Bool) (id now : ℕ) (scrape : Text → Text ⊎ Text) (item : FeedItem) (s : S)
      → (seen : Option Bool) × IsLookedUp v has_client s now
          (digest (to_lower (trim_space item.url)))
          seen
        × IsEnded has_client id now scrape item seen s
            (process_job v digest has_client id now scrape item s)
  unfolding process_job refused md5_hash
  process_job-IsSettled has_client id now scrape item s =
      let hash = md5_hash digest item.url in
      let seen = dedup_exists v has_client s now hash in
      (
        seen,
        dedup_exists-IsLookedUp v has_client s now hash,
        elim (exists-answers seen) [
          | inl e ↦ rw (e, process_job) (refl, refl, (λ h. refl), inl (refl, refl))
          | inr (inl e) ↦ rw (e, process_job) (refl, refl, (λ h. refl), inl (refl, refl))
          | inr (inr e) ↦
              rw (e, process_job) (scrape_and_mark-IsEnded has_client id now scrape item s)
        ],
      )

  -- Once a URL is marked, the server answers, and less than the time to live has passed, a job with
  -- the same URL, up to case and white space at its ends, is a duplicate and changes nothing.
  pub process_job-repeat :
      (remembers : IsRemembering v) (id now t : ℕ) (scrape : Text → Text ⊎ Text)
      (first item : FeedItem) (s s' : S)
      → v.set_ex s now (dedup_key (md5_hash digest first.url)) dedup_ttl ≡ some s'
      → t < now + dedup_ttl
      → IsSameUrl first.url item.url
      → (s' ≡ dedup_set v true s now (md5_hash digest first.url))
        × (process_job v {F = F} digest true id t scrape item s'
            ≡ (record { article = none; err = some duplicate_url; url = item.url }, s'))
  unfolding process_job md5_hash dedup_exists dedup_set stored_or refused
  process_job-repeat remembers id now t scrape first item s s' stored early same =
      let there =
        remembers.sets s s' now t (dedup_key (digest (to_lower (trim_space first.url)))) dedup_ttl
          stored early in
      let found : v.exists s' t (dedup_key (md5_hash digest item.url)) ≡ some true =
        ap (λ u. v.exists s' t (dedup_key (digest u))) (sym same) ∙ there in
      (rw stored refl, rw (found, process_job) refl)

module _ {S : Type 0} (F : Type 0) (v : Valkey S) where
  -- What was marked in the cache stays marked, whatever job runs.
  pub process_job-marked :
      (digest : Text → Text) (remembers : IsRemembering v) (has_client : Bool) (id now t : ℕ)
      (scrape : Text → Text ⊎ Text) (item : FeedItem) (k : Text) (s : S)
      → now ≤ t
      → v.exists s t (dedup_key k) ≡ some true
      → v.exists (process_job v {F = F} digest has_client id now scrape item s).1 t (dedup_key k)
        ≡ some true
  process_job-marked digest remembers has_client id now t scrape item k s h m =
      let (r, s') = process_job v {F = F} digest has_client id now scrape item s in
      let (seen, at, (settled, url, failed, ended)) =
        process_job-IsSettled {F = F} v digest has_client id now scrape item s in
      elim ended [
        | inl (e, why) ↦ rw (failed (err_of r settled e)) m
        | inr (content, a, new, e, f, is, marked) ↦
            IsMarked-keeps v remembers has_client now t (dedup_key k) _ s s' h m marked
      ]
