-- ===== src/Postgres/Replies.antt =====
-- What collect makes of an answer: only a complete one gives its rows.
use quant_indonesia_scraping.Prelude.{
  ◌≡◌, refl, ap, sym, Option, none, some, List, [], ◌∷◌, map, Text, Result, ok, err, ok-injective,
}
use quant_indonesia_scraping.Postgres.{
  Reply, refused, rows, RepoError, scan_rows, after_rows, collect,
}

module _ {A : Type 0} where
  scan_rows-all : (rs : List (Option A)) (xs : List A) → scan_rows rs ≡ ok xs → rs ≡ map some xs
  unfolding scan_rows
  scan_rows-all [] xs h = rw (sym (ok-injective h)) refl
  scan_rows-all (none ∷ rs) xs h = cc
  scan_rows-all (some a ∷ rs) xs h = scanned (scan_rows rs) h (scan_rows-all rs)
    where
      scanned :
          (o : Result RepoError (List A))
          → elim o [ err e ↦ err e | ok ys ↦ ok (a ∷ ys) ] ≡ ok xs
          → ((ys : List A) → o ≡ ok ys → rs ≡ map some ys)
          → some a ∷ rs ≡ map some xs
      scanned (err e) h all = cc
      scanned (ok ys) h all =
          rw (sym (ok-injective h)) (ap (λ (l : List (Option A)). some a ∷ l) (all ys refl))

  ended :
      (rs : List (Option A)) (o : Result RepoError (List A)) (end : Option Text) (xs : List A)
      → after_rows end o ≡ ok xs
      → (o ≡ ok xs) × (end ≡ none)
  unfolding after_rows
  ended rs (err e) end xs h = cc
  ended rs (ok ys) none xs h = (h, refl)
  ended rs (ok ys) (some e) xs h = cc

  -- The rows come from an answer in which each was scanned, and which ended without an error.
  pub collect-rows :
      (reply : Reply A) (xs : List A) → collect reply ≡ ok xs → reply ≡ rows (map some xs) none
  unfolding collect
  collect-rows (refused e) xs h = cc
  collect-rows (rows rs end) xs h =
      let (all, done) = ended rs (scan_rows rs) end xs h in rw (done, scan_rows-all rs xs all) refl

  scan_rows-map : (xs : List A) → scan_rows (map some xs) ≡ ok xs
  unfolding scan_rows
  scan_rows-map [] = refl
  scan_rows-map (x ∷ xs) = rw (scan_rows-map xs) refl

  pub collect_complete : (xs : List A) → collect (rows (map some xs) none) ≡ ok xs
  unfolding collect after_rows
  collect_complete xs = rw (scan_rows-map xs) refl
