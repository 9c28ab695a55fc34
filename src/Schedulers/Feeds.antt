-- ===== src/Schedulers/Feeds.antt =====
-- What ParseFeed gives.
use quant_indonesia_scraping.Prelude.{
  ℕ, ◌≤◌, ◌<◌, ◌≡◌, refl, sym, false, ◌||◌, Option, none, some, List, [], ◌∷◌, Text, is_empty,
  length, All, ltb, leb, ok, ok-injective, Bool-cases, inl, inr, arith,
}
use quant_indonesia_scraping.HttpClient.{
  GetResult, got, context_error, limiter_error, request_error, client_error, exhausted,
}
use quant_indonesia_scraping.Worker.{FeedItem}
use quant_indonesia_scraping.Schedulers.{RssItem, feed_items, parse_body, parse_feed}

-- An item with a URL, of the source.
abbrev pub IsItem : Text → FeedItem → Type 0
IsItem name i = (is_empty i.url ≡ false) × (i.source ≡ name)

feed_items-IsItem :
    (name : Text) (is : List RssItem)
    → All (IsItem name) (feed_items name is) × (length (feed_items name is) ≤ length is)
unfolding feed_items
feed_items-IsItem name [] = (tt, omega arith)
feed_items-IsItem name (i ∷ is) =
    let (all, short) = feed_items-IsItem name is in
    elim (Bool-cases (is_empty i.link)) [
      | inl e ↦ rw (e, feed_items) (all, omega arith)
      | inr e ↦ rw (e, feed_items) (((e, refl), all), omega arith)
    ]

-- A feed gives items only after an answer with a status from 200 to 299 whose body was parsed: at
-- most as many as it has, each with a URL and the name of the source.
pub parse_feed-IsItem :
    (parse : Text → Option (List RssItem)) (name : Text) (reply : GetResult) (items : List FeedItem)
    → parse_feed parse name reply ≡ ok items
    → (body : Text) × (status : ℕ) × (is : List RssItem) × (reply ≡ got body status)
      × (200 ≤ status)
      × (status < 300)
      × (parse body ≡ some is)
      × All (IsItem name) items
      × (length items ≤ length is)
unfolding parse_feed parse_body
parse_feed-IsItem parse name context_error items = λ h. cc
parse_feed-IsItem parse name limiter_error items = λ h. cc
parse_feed-IsItem parse name request_error items = λ h. cc
parse_feed-IsItem parse name (client_error n) items = λ h. cc
parse_feed-IsItem parse name (exhausted e) items = λ h. cc
parse_feed-IsItem parse name (got body status) items =
    elim (Bool-cases (ltb status 200 || leb 300 status)) [
      | inl e ↦ rw (e, parse_feed) (λ h. cc)
      | inr e ↦ rw (e, parse_feed) (parsed (parse body) refl (in_range e))
    ]
  where
    in_range : (ltb status 200 || leb 300 status) ≡ false → (200 ≤ status) × (status < 300)
    in_range e = (ground (arith, e), ground (arith, e))

    parsed :
        (o : Option (List RssItem))
        → parse body ≡ o
        → (200 ≤ status) × (status < 300)
        → parse_body parse name body ≡ ok items
        → (b : Text) × (s : ℕ) × (is : List RssItem) × (got body status ≡ got b s)
          × (200 ≤ s)
          × (s < 300)
          × (parse b ≡ some is)
          × All (IsItem name) items
          × (length items ≤ length is)
    parsed none e range = rw (e, parse_body) (λ h. cc)
    parsed (some is) e (low, high) =
        rw (e, parse_body)
          (λ h. rw (sym (ok-injective h)) (
            let (all, short) = feed_items-IsItem name is in
            (body, status, is, refl, low, high, e, all, short)))
