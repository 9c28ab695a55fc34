-- ===== src/Postgres.antt =====
-- repository/postgres/*.go: the queries that are put together at run time, with their arguments, what
-- is made of the rows that come back, and the upsert of a stock. PostgreSQL itself is a parameter:
-- its answer to a query is a `Reply`.
pub mod Queries
pub mod Replies
pub mod Signals
pub mod Stocks
mod Examples
use quant_indonesia_scraping.Prelude.{
  ℕ, ◌+◌, Bool, true, false, Option, none, some, List, [], ◌∷◌, ◌++◌, Text, codes, contains, ℤ,
  Result, ok, err, ◌==◌, if◌then◌else◌,
}

-- A query argument.
pub data Arg : Type 0 where
  text_arg : Text → Arg
  time_arg : ℕ → Arg
  int_arg : ℤ → Arg

-- The text in front of a placeholder, its number, and the text behind it.
pub record Condition : Type 0 where
  pub front : Text
  pub index : ℕ
  pub back : Text

-- What a query gives: an error, or the scanned rows, `none` where a scan fails, with the error that
-- the iteration ends with.
pub data Reply (A : Type 0) : Type 0 where
  refused : Text → Reply A
  rows : List (Option A) → Option Text → Reply A

pub data RepoError : Type 0 where
  not_found already_exists scanning : RepoError
  querying iterating executing : Text → RepoError

module _ {A : Type 0} where
  -- The loop over the rows: the first one that cannot be scanned ends it.
  pub scan_rows : List (Option A) → Result RepoError (List A)
  scan_rows [] = ok []
  scan_rows (none ∷ rs) = err scanning
  scan_rows (some a ∷ rs) = elim (scan_rows rs) [ err e ↦ err e | ok xs ↦ ok (a ∷ xs) ]

  pub after_rows : Option Text → Result RepoError (List A) → Result RepoError (List A)
  after_rows end (err e) = err e
  after_rows none (ok xs) = ok xs
  after_rows (some e) (ok xs) = err (iterating e)

  pub collect : Reply A → Result RepoError (List A)
  unfolding scan_rows after_rows
  collect (refused e) = err (querying e)
  collect (rows rs end) = after_rows end (scan_rows rs)

-- `pool.QueryRow(...).Scan(...)`: `none` is pgx.ErrNoRows.
pub one_row : {A : Type 0} → Result Text (Option A) → Result RepoError A
one_row (err e) = err (querying e)
one_row (ok none) = err not_found
one_row (ok (some a)) = ok a

-- ArticleRepo.Create, over the error of the INSERT.
pub create_result : Option Text → Option RepoError
create_result none = none
create_result (some e) =
    some (if contains e (codes "duplicate key") then already_exists else executing e)

-- ArticleRepo.Update, over the error or the number of rows that the UPDATE changed.
pub update_result : Result Text ℕ → Option RepoError
update_result (err e) = some (executing e)
update_result (ok n) = if n == 0 then some not_found else none
