-- ===== src/Postgres/Queries.antt =====
-- The queries of ArticleRepo.List, ListUnprocessed, SignalRepo.GetStockSignals and CreateTags:
-- numbered placeholders and their arguments.
pub mod Binding
use quant_indonesia_scraping.Prelude.{
  ℕ, zero, suc, ◌+◌, ◌-◌, ◌*◌, Bool, true, false, not, ◌&&◌, ◌||◌, Option, none, some, List, [],
  ◌∷◌, ◌++◌, map, Text, codes, is_empty, itoa, text_eq, length, ℤ, pos, ltb_ℤ, leb_ℤ, if◌then◌else◌,
}
use quant_indonesia_scraping.Domain.{ArticleFilter, SignalFilter, NewsStockTag}
use quant_indonesia_scraping.Postgres.{Arg, text_arg, time_arg, int_arg, Condition}

pub record Builder : Type 0 where
  pub conditions : List Condition
  pub args : List Arg
  pub arg_idx : ℕ

abbrev pub no_conditions : Builder
no_conditions = record { conditions = []; args = []; arg_idx = 0 }

-- `argIdx++`, the condition and its argument.
unfoldable pub add : Text → Text → Arg → Builder → Builder
add front back a b = record {
  conditions = b.conditions ++ record { front = front; index = b.arg_idx + 1; back = back } ∷ [];
  args = b.args ++ a ∷ [];
  arg_idx = b.arg_idx + 1;
}

-- The argument comes before its condition, and the number is that of the arguments.
pub add_counted : Text → Text → Arg → Builder → Builder
unfolding add
add_counted front back a b = add front back a (record b { arg_idx = length b.args })

-- A filter of text is left out where it is empty, one of a pointer where it is nil.
unfoldable pub add_text :
    (Text → Text → Arg → Builder → Builder) → Text → Text → Text → Builder → Builder
add_text step front back [] b = b
add_text step front back (c ∷ s) b = step front back (text_arg (c ∷ s)) b

unfoldable pub add_option {ℓ} :
    {A : Type ℓ} → (A → Arg) → Text → Text → Option A → Builder → Builder
unfolding add
add_option arg front back none b = b
add_option arg front back (some a) b = add front back (arg a) b

-- `limit <= 0 || limit > 100`
unfoldable pub effective_limit : ℕ → ℤ → ℤ
effective_limit default limit =
    if leb_ℤ limit (pos 0) || ltb_ℤ (pos 100) limit then pos default else limit

unfoldable pub article_conditions : ArticleFilter → Builder
unfolding add_text add_option
article_conditions f =
    let b1 =
      add_text add (codes "id IN (SELECT news_id FROM news_stock_tags WHERE symbol = $") (codes ")")
        f.symbol no_conditions in
    let b2 = add_option text_arg (codes "sentiment_label = $") [] f.sentiment_label b1 in
    let b3 = add_text add (codes "source = $") [] f.source b2 in
    let b4 = add_option time_arg (codes "published_at >= $") [] f.from_date b3 in
    add_option time_arg (codes "published_at <= $") [] f.to_date b4

-- The OFFSET, where there is one.
unfoldable pub add_offset : ℤ → Builder → Builder
unfolding add
add_offset offset b =
    if ltb_ℤ (pos 0) offset then add (codes " OFFSET $") [] (int_arg offset) b else b

unfoldable pub paged : ℤ → ℤ → Builder → Builder
unfolding add_offset
paged limit offset b = add_offset offset (add (codes " LIMIT $") [] (int_arg limit) b)

-- All placeholders of ArticleRepo.List with their arguments.
unfoldable pub list_articles : ArticleFilter → Builder
unfolding article_conditions paged effective_limit
list_articles f = paged (effective_limit 20 f.limit) f.offset (article_conditions f)

unfoldable pub list_unprocessed : ℤ → Builder
unfolding effective_limit
list_unprocessed limit = add (codes "LIMIT $") [] (int_arg (effective_limit 50 limit)) no_conditions

-- A period in nanoseconds; seven days where it is none of the others.
pub period_duration : Text → ℕ
period_duration period =
    if text_eq period (codes "24h")
    then 24 * 3_600_000_000_000
    else if text_eq period (codes "30d")
    then 30 * 24 * 3_600_000_000_000
    else 7 * 24 * 3_600_000_000_000

pub signal_conditions : ℕ → SignalFilter → Builder
unfolding period_duration add_counted
signal_conditions now f =
    let b1 =
      add_counted (codes "a.published_at >= $") [] (time_arg (now - period_duration f.period))
        no_conditions in
    let b2 = add_text add_counted (codes "s.symbol = $") [] f.symbol b1 in
    add_text add_counted (codes "s.sector = $") [] f.sector b2

-- A condition as the query has it, and several, joined.
unfoldable pub render : Condition → Text
render c = c.front ++ itoa c.index ++ c.back

unfoldable pub join_and : List Condition → Text
unfolding render
join_and [] = []
join_and (c ∷ []) = render c
join_and (c ∷ d ∷ cs) = render c ++ codes " AND " ++ join_and (d ∷ cs)

-- The WHERE of ArticleRepo.List.
unfoldable pub where_clause : List Condition → Text
unfolding join_and
where_clause [] = []
where_clause (c ∷ cs) = codes " WHERE " ++ join_and (c ∷ cs)
