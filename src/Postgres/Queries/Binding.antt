-- ===== src/Postgres/Queries/Binding.antt =====
-- Every placeholder of a query stands for the argument that belongs to its condition.
use mathlib.Core.Path.{subst}
use quant_indonesia_scraping.Prelude.{
  ℕ, zero, suc, ◌+◌, ◌-◌, ◌≤◌, ◌<◌, ◌≡◌, refl, sym, Bool, true, false, Option, none, some, List, [],
  ◌∷◌, ◌++◌, Text, codes, length, length-append, get_elem?, All, All-append, All-weaken, ℤ, pos,
  negsuc, ltb_ℤ, if◌then◌else◌, arith, ◌≤ℤ◌,
}
use quant_indonesia_scraping.Domain.{ArticleFilter, SignalFilter}
use quant_indonesia_scraping.Postgres.{Arg, text_arg, time_arg, int_arg, Condition}
use quant_indonesia_scraping.Postgres.Queries.{
  Builder, no_conditions, add, add_counted, add_text, add_option, effective_limit,
  article_conditions, paged, add_offset, list_articles, period_duration, signal_conditions,
}

-- The texts before the placeholders, each with the argument that its number refers to.
abbrev pub resolved : List Arg → List Condition → List (Text × Option Arg)
resolved args [] = []
resolved args (c ∷ cs) = (c.front, get_elem? args (c.index - 1)) ∷ resolved args cs

abbrev pub bound : List (Text × Arg) → List (Text × Option Arg)
bound [] = []
bound ((t, a) ∷ es) = (t, some a) ∷ bound es

-- The OFFSET, where it is positive.
abbrev pub offset_part : ℤ → List (Text × Arg)
offset_part offset = if ltb_ℤ (pos 0) offset then (codes " OFFSET $", int_arg offset) ∷ [] else []

abbrev pub page_part : ℤ → ℤ → List (Text × Arg)
page_part limit offset = (codes " LIMIT $", int_arg limit) ∷ offset_part offset

-- The number is that of an argument.
abbrev IsNumbered : ℕ → Condition → Type 0
IsNumbered n c = (0 < c.index) × (c.index ≤ n)

-- The conditions are the expected ones, each bound to its argument, and no argument is left over.
pub record IsBound (es : List (Text × Arg)) (b : Builder) : Type 0 where
  pub counted : b.arg_idx ≡ length b.args
  pub numbered : All (IsNumbered (length b.args)) b.conditions
  pub resolves : resolved b.args b.conditions ≡ bound es
  pub used : length b.args ≡ length es

get_elem?-append :
    (xs ys : List Arg) (i : ℕ) → i < length xs → get_elem? (xs ++ ys) i ≡ get_elem? xs i
get_elem?-append [] ys i h = absurd (omega arith)
get_elem?-append (x ∷ xs) ys zero h = refl
get_elem?-append (x ∷ xs) ys (suc i) h = get_elem?-append xs ys i (omega arith)

get_elem?-last : (xs : List Arg) (a : Arg) → get_elem? (xs ++ a ∷ []) (length xs) ≡ some a
get_elem?-last [] a = refl
get_elem?-last (x ∷ xs) a = get_elem?-last xs a

resolved-more :
    (args : List Arg) (a : Arg) (cs : List Condition)
    → All (IsNumbered (length args)) cs
    → resolved (args ++ a ∷ []) cs ≡ resolved args cs
resolved-more args a [] h = refl
resolved-more args a (c ∷ cs) ((low, high), h) =
    rw (get_elem?-append args (a ∷ []) (c.index - 1) (omega arith))
      (rw (resolved-more args a cs h) refl)

resolved-append :
    (args : List Arg) (cs ds : List Condition)
    → resolved args (cs ++ ds) ≡ resolved args cs ++ resolved args ds
resolved-append args [] ds = refl
resolved-append args (c ∷ cs) ds = rw (resolved-append args cs ds) refl

bound-append : (es fs : List (Text × Arg)) → bound (es ++ fs) ≡ bound es ++ bound fs
bound-append [] fs = refl
bound-append ((t, a) ∷ es) fs = rw (bound-append es fs) refl

no_conditions-IsBound : IsBound [] no_conditions
no_conditions-IsBound = record { counted = refl; numbered = tt; resolves = refl; used = refl }

add-IsBound :
    (front back : Text) (a : Arg) (es : List (Text × Arg)) (b : Builder)
    → IsBound es b
    → IsBound (es ++ (front, a) ∷ []) (add front back a b)
unfolding add
add-IsBound front back a es b h = record {
  counted = omega (arith, h.counted, more);
  numbered =
      All-append (IsNumbered (length (b.args ++ a ∷ []))) b.conditions _
        (All-weaken (IsNumbered (length b.args)) (IsNumbered (length (b.args ++ a ∷ [])))
          b.conditions (λ c (low, high). (low, omega (arith, more))) h.numbered)
        ((omega arith, omega (arith, h.counted, more)), tt);
  resolves =
      rw
        (resolved-append (b.args ++ a ∷ []) b.conditions
          (record { front = front; index = b.arg_idx + 1; back = back } ∷ []))
        (rw (resolved-more b.args a b.conditions h.numbered)
          (rw (h.resolves) (rw last (sym (bound-append es ((front, a) ∷ []))))));
  used = omega (arith, h.used, more, length-append es ((front, a) ∷ []));
}
  where
    more : length (b.args ++ a ∷ []) ≡ length b.args + 1
    more = length-append b.args (a ∷ [])

    here : b.arg_idx + 1 - 1 ≡ length b.args
    here = omega (arith, h.counted)

    last : get_elem? (b.args ++ a ∷ []) (b.arg_idx + 1 - 1) ≡ some a
    last = rw here (get_elem?-last b.args a)

-- A builder whose counter is set to the number of its arguments is as bound as before.
add_counted-IsBound :
    (front back : Text) (a : Arg) (es : List (Text × Arg)) (b : Builder)
    → IsBound es b
    → IsBound (es ++ (front, a) ∷ []) (add_counted front back a b)
unfolding add_counted
add_counted-IsBound front back a es b h =
    add-IsBound front back a es (record b { arg_idx = length b.args })
      (record { counted = refl; numbered = h.numbered; resolves = h.resolves; used = h.used })

-- What a filter adds.
abbrev pub text_part : Text → Text → List (Text × Arg)
text_part front [] = []
text_part front (c ∷ s) = (front, text_arg (c ∷ s)) ∷ []

abbrev pub option_part : {A : Type 0} → (A → Arg) → Text → Option A → List (Text × Arg)
option_part arg front none = []
option_part arg front (some a) = (front, arg a) ∷ []

append_nil : (es : List (Text × Arg)) → es ++ [] ≡ es
append_nil [] = refl
append_nil (e ∷ es) = rw (append_nil es) refl

abbrev IsStep : (Text → Text → Arg → Builder → Builder) → Type 0
IsStep step =
    (front back : Text) (a : Arg) (es : List (Text × Arg)) (b : Builder)
    → IsBound es b
    → IsBound (es ++ (front, a) ∷ []) (step front back a b)

add_text-IsBound :
    (step : Text → Text → Arg → Builder → Builder)
    → IsStep step
    → (front back t : Text) (es : List (Text × Arg)) (b : Builder) → IsBound es b
    → IsBound (es ++ text_part front t) (add_text step front back t b)
unfolding add_text
add_text-IsBound step ok front back [] es b h = rw (append_nil es) h
add_text-IsBound step ok front back (c ∷ s) es b h = ok front back (text_arg (c ∷ s)) es b h

add_option-IsBound :
    {A : Type 0} (arg : A → Arg) (front back : Text) (o : Option A) (es : List (Text × Arg))
    (b : Builder)
    → IsBound es b
    → IsBound (es ++ option_part arg front o) (add_option arg front back o b)
unfolding add_option
add_option-IsBound arg front back none es b h = rw (append_nil es) h
add_option-IsBound arg front back (some a) es b h = add-IsBound front back (arg a) es b h

add_offset-IsBound :
    (offset : ℤ) (es : List (Text × Arg)) (b : Builder)
    → IsBound es b
    → IsBound (es ++ offset_part offset) (add_offset offset b)
unfolding add_offset
add_offset-IsBound offset es b h = go (ltb_ℤ (pos 0) offset)
  where
    go :
        (positive : Bool)
        → IsBound
            (es ++ (if positive then (codes " OFFSET $", int_arg offset) ∷ [] else []))
            (if positive then add (codes " OFFSET $") [] (int_arg offset) b else b)
    go true = add-IsBound (codes " OFFSET $") [] (int_arg offset) es b h
    go false = rw (append_nil es) h

append_cons : (es fs : List (Text × Arg)) (e : Text × Arg) → (es ++ e ∷ []) ++ fs ≡ es ++ e ∷ fs
append_cons [] fs e = refl
append_cons (d ∷ es) fs e = rw (append_cons es fs e) refl

paged-IsBound :
    (limit offset : ℤ) (es : List (Text × Arg)) (b : Builder)
    → IsBound es b
    → IsBound (es ++ page_part limit offset) (paged limit offset b)
unfolding paged
paged-IsBound limit offset es b h =
    let e : Text × Arg = (codes " LIMIT $", int_arg limit) in
    subst (λ fs. IsBound fs (paged limit offset b)) (append_cons es (offset_part offset) e)
      (add_offset-IsBound offset (es ++ e ∷ []) _
        (add-IsBound (codes " LIMIT $") [] (int_arg limit) es b h))

-- The conditions that a filter asks for.
abbrev pub article_parts : ArticleFilter → List (Text × Arg)
article_parts f =
    text_part (codes "id IN (SELECT news_id FROM news_stock_tags WHERE symbol = $") f.symbol
    ++ option_part text_arg (codes "sentiment_label = $") f.sentiment_label
    ++ text_part (codes "source = $") f.source
    ++ option_part time_arg (codes "published_at >= $") f.from_date
    ++ option_part time_arg (codes "published_at <= $") f.to_date

article_conditions-IsBound : (f : ArticleFilter) → IsBound (article_parts f) (article_conditions f)
unfolding article_conditions
article_conditions-IsBound f =
    add_option-IsBound time_arg (codes "published_at <= $") [] f.to_date _ _ (
      add_option-IsBound time_arg (codes "published_at >= $") [] f.from_date _ _ (
        add_text-IsBound add add-IsBound (codes "source = $") [] f.source _ _ (
          add_option-IsBound text_arg (codes "sentiment_label = $") [] f.sentiment_label _ _ (
            add_text-IsBound add add-IsBound
              (codes "id IN (SELECT news_id FROM news_stock_tags WHERE symbol = $") (codes ")")
              f.symbol [] _ no_conditions-IsBound))))

-- From 1 to 100, and the limit asked for where this is in range.
abbrev pub IsLimit : ℤ → ℤ → Type 0
IsLimit asked limit =
    (pos 1 ≤ℤ limit) × (limit ≤ℤ pos 100) × (pos 1 ≤ℤ asked → asked ≤ℤ pos 100 → limit ≡ asked)

pub effective_limit_bounds :
    (default : ℕ) (l : ℤ) → 0 < default → default ≤ 100 → IsLimit l (effective_limit default l)
unfolding effective_limit
effective_limit_bounds default (pos n) low high = (ground arith, ground arith, λ a b. ground arith)
effective_limit_bounds default (negsuc n) low high =
    (ground arith, ground arith, λ a b. ground arith)

-- The query for articles has a condition for each part of the filter that is set, in this order, then
-- the LIMIT and, where it is positive, the OFFSET, and each placeholder has the number of its own
-- argument. The LIMIT is from 1 to 100, and that of the filter where this is in range.
pub list_articles-IsBound :
    (f : ArticleFilter)
    → let limit = effective_limit 20 f.limit in
      IsBound (article_parts f ++ page_part limit f.offset) (list_articles f)
      × IsLimit f.limit limit
unfolding list_articles
list_articles-IsBound f = (
  paged-IsBound (effective_limit 20 f.limit) f.offset (article_parts f) (article_conditions f)
      (article_conditions-IsBound f),
  effective_limit_bounds 20 f.limit (omega arith) (omega arith),
)

abbrev pub signal_parts : ℕ → SignalFilter → List (Text × Arg)
signal_parts now f =
    ((codes "a.published_at >= $", time_arg (now - period_duration f.period)) ∷ [])
    ++ text_part (codes "s.symbol = $") f.symbol
    ++ text_part (codes "s.sector = $") f.sector

-- So does the query for signals, with the time that the period started at first.
pub signal_conditions-IsBound :
    (now : ℕ) (f : SignalFilter) → IsBound (signal_parts now f) (signal_conditions now f)
unfolding signal_conditions
signal_conditions-IsBound now f =
    add_text-IsBound add_counted add_counted-IsBound (codes "s.sector = $") [] f.sector _ _ (
      add_text-IsBound add_counted add_counted-IsBound (codes "s.symbol = $") [] f.symbol _ _ (
        add_counted-IsBound (codes "a.published_at >= $") [] _ [] no_conditions
          no_conditions-IsBound))
