-- ===== src/Worker/Examples.antt =====
-- Jobs against a cache that is a list of keys with their ends.
use quant_indonesia_scraping.Prelude.{
  ℕ, ◌+◌, ◌<◌, ◌≡◌, ◌⊎◌, refl, ap, Bool, true, false, Option, none, some, List, [], ◌∷◌, Text,
  codes, text_eq, text_eq_refl, ltb, arith, inr, trim_space, to_lower, trim_left, trim_right,
  trim_right_cons, is_space, lower, ◌&&◌,
}
use mathlib.Core.Path.{subst}
use quant_indonesia_scraping.Float.Decimal.{Decimal}
use quant_indonesia_scraping.Worker.{
  FeedItem, md5_hash, dedup_ttl, dedup_key, Valkey, IsRemembering, duplicate_url, scrape_failed,
  JobResult, dedup_exists, dedup_set, stored_or, process_job, scrape_and_mark, build_article,
  submitted,
}
use quant_indonesia_scraping.Worker.Dedup.{
  IsLookedUp, IsEnded, process_job-IsSettled, process_job-repeat,
}

-- The entries that a set adds, latest first.
abbrev Entries : Type 0
Entries = List (Text × ℕ)

abbrev held : Text → ℕ → Entries → Bool
held k t [] = false
held k t ((l, until) ∷ es) = elim (text_eq l k && ltb t until) [ true ↦ true | false ↦ held k t es ]

abbrev memory : Valkey Entries
memory = record {
  exists = λ es t k. some (held k t es);
  set_ex = λ es now k ttl. some ((k, now + ttl) ∷ es);
}

held_first : (k : Text) (t until : ℕ) (es : Entries) → t < until → held k t ((k, until) ∷ es) ≡ true
held_first k t until es h = ground (arith, text_eq_refl k)

held_more :
    (k l : Text) (t until : ℕ) (es : Entries)
    → held k t es ≡ true
    → held k t ((l, until) ∷ es) ≡ true
held_more k l t until es h = ground (arith, h)

some-true : (b : Bool) → some b ≡ some true → b ≡ true
some-true b h = cc

abbrev memory_of : Entries → Option Entries → Entries
memory_of es none = es
memory_of es (some fs) = fs

memory-IsRemembering : IsRemembering memory
memory-IsRemembering = record {
  sets = λ s s' now t k ttl e h.
      subst (λ (es : Entries). some (held k t es) ≡ some true) (ap (memory_of s) e)
        (ap some (held_first k t (now + ttl) s h));
  keeps = λ s s' now t k l ttl e h m.
      subst (λ (es : Entries). some (held k t es) ≡ some true) (ap (memory_of s) e)
        (ap some (held_more k l t (now + ttl) s (some-true (held k t s) m)));
}

abbrev item : Text → FeedItem
item url = record {
  title = codes "Banks rise";
  url = url;
  source = codes "CNBC";
  summary = [];
  published_at = none;
}

abbrev same_digest : Text → Text
same_digest t = t

abbrev page : Text → Text ⊎ Text
page url = inr (codes "text")

same_url : to_lower (trim_space (codes "http://a/X")) ≡ to_lower (trim_space (codes " http://A/x"))
unfolding trim_space trim_left trim_right trim_right_cons is_space lower
same_url = refl

marked : process_job memory {F = Decimal} same_digest true 1 100 page (item (codes "u")) [] ≡ (
  record {
    article = some (build_article memory same_digest true 1 100 (item (codes "u")) (codes "text"));
    err = none;
    url = codes "u";
  },
  (codes "dedup:url:u", 604_900) ∷ [],
)
unfolding process_job scrape_and_mark md5_hash dedup_exists dedup_set stored_or build_article
    trim_space trim_left trim_right trim_right_cons is_space lower
marked = refl

few_items : submitted (item (codes "u") ∷ []) ≡ item (codes "u") ∷ []
unfolding submitted
few_items = refl

process_job-repeat_example :
    let first = item (codes "http://a/X") in
    let later = item (codes " http://A/x") in
    let s' : Entries = (dedup_key (md5_hash same_digest first.url), 100 + dedup_ttl) ∷ [] in
    (s' ≡ dedup_set memory true [] 100 (md5_hash same_digest first.url))
    × (process_job memory {F = Decimal} same_digest true 2 5_000 page later s'
        ≡ (record { article = none; err = some duplicate_url; url = later.url }, s'))
process_job-repeat_example =
    process_job-repeat memory same_digest memory-IsRemembering 2 100 5_000 page
      (item (codes "http://a/X")) (item (codes " http://A/x")) []
      ((dedup_key (md5_hash same_digest (codes "http://a/X")), 100 + dedup_ttl) ∷ []) refl
      (omega arith) same_url

process_job-IsSettled_example :
    let it = item (codes "u") in
    (seen : Option Bool) × IsLookedUp memory true [] 100
      (same_digest (to_lower (trim_space it.url)))
      seen
    × IsEnded memory same_digest true 1 100 page it seen []
        (process_job memory {F = Decimal} same_digest true 1 100 page it [])
process_job-IsSettled_example =
    process_job-IsSettled memory same_digest true 1 100 page (item (codes "u")) []

abbrev two_errors : List (JobResult Decimal)
two_errors =
    record { article = none; err = some duplicate_url; url = codes "u" }
    ∷ record { article = none; err = some (scrape_failed (codes "timeout")); url = codes "w" }
    ∷ []
