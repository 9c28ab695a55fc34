-- ===== src/Worker/Pool/Examples.antt =====
-- A pool of one worker on one feed, which gives one item.
use quant_indonesia_scraping.Prelude.{
  ℕ, ◌+◌, ◌*◌, ◌≤◌, ◌≡◌, ◌⊎◌, refl, true, false, Option, none, some, List, [], ◌∷◌, Text, codes,
  length, arith, inr, text_eq, if◌then◌else◌,
}
use quant_indonesia_scraping.Float.Decimal.{Decimal}
use quant_indonesia_scraping.Worker.{FeedItem, Valkey, submitted, dedup_exists}
use quant_indonesia_scraping.Worker.Pool.{
  waiting, checking, scraping, WorkerPool, submitted_items, idle_workers, start_pool, after_check,
  takes, checks, scrapes, sends, Step, submits, collects, works, Reach, start, next,
}
use quant_indonesia_scraping.Worker.Pool.Accounts.{
  items_weight, results_weight, pool_weight, Reach-accounts,
}
use quant_indonesia_scraping.Worker.Pool.Bound.{pool_work, Reach-bounded}
use quant_indonesia_scraping.Worker.Pool.Ends.{Reach-completes}

-- A cache that counts what is marked and remembers no URL.
abbrev counting : Valkey ℕ
counting = record { exists = λ s t k. some false; set_ex = λ s now k ttl. some (s + 1) }

abbrev story : FeedItem
story = record {
  title = codes "Banks rise";
  url = codes "http://a/x";
  source = codes "CNBC";
  summary = [];
  published_at = none;
}

abbrev digest : Text → Text
digest t = t

abbrev page : Text → Text ⊎ Text
page url = inr (codes "text")

abbrev feeds : List (Option (List FeedItem))
feeds = none ∷ some (story ∷ []) ∷ []

abbrev Run : ℕ → WorkerPool ℕ Decimal → Type 0
Run k x = Reach counting digest true page 1 (submitted_items feeds) 0 k x

abbrev AfterRun : ℕ → Type 0
AfterRun k = (x : WorkerPool ℕ Decimal) × Run k x

-- The item is submitted, taken, checked, scraped, sent and collected.
abbrev collected_run : AfterRun 6
unfolding submitted_items submitted start_pool idle_workers after_check dedup_exists
collected_run = (
  _,
  next
      (next
        (next
          (next
            (next (next start (submits story [] refl refl (omega arith)))
              (works [] [] waiting (checking story) _ refl (takes story [] refl)))
            (works [] [] (checking story) (scraping story) _ refl (checks 100 story)))
          (works [] [] (scraping story) _ _ refl (scrapes 1 101 story)))
        (works [] [] _ waiting _ refl (sends _ (omega arith))))
      (collects _ [] refl),
)

-- One for the URL of the story.
abbrev story_weight : Text → ℕ
story_weight t = if text_eq t story.url then 1 else 0

Reach-accounts_example :
    (pool_weight story_weight collected_run.0 ≤ items_weight story_weight (submitted_items feeds))
    × (collected_run.0.shared.cancelled ≡ false
        → pool_weight story_weight collected_run.0
          ≡ items_weight story_weight (submitted_items feeds))
Reach-accounts_example = Reach-accounts counting digest true page 1 story_weight collected_run.1

Reach-bounded_example : 6 + pool_work collected_run.0 ≤ 120 * length feeds + 1 + 1
Reach-bounded_example = Reach-bounded counting digest true page 1 feeds collected_run.1

Reach-completes_example :
    ((y : WorkerPool ℕ Decimal) × Step counting digest true page 1 collected_run.0 y)
    ⊎ ((f : Text → ℕ)
        → results_weight f collected_run.0.shared.collected
          ≡ items_weight f (submitted_items feeds))
unfolding collected_run submitted_items submitted start_pool idle_workers after_check dedup_exists
Reach-completes_example =
    Reach-completes counting digest true page 1 (omega arith) collected_run.1 refl
