-- ===== src/SyncStorage/Paging/Rows.antt =====
-- The rows of a page: those that the sort puts behind what has been served.
use fxa_lite.Prelude.{
  ℕ, suc, ◌≡◌, ◌≢◌, refl, sym, ap, ◌∙◌, Bool, true, false, Option, none, some, List, [], ◌∷◌, ◌++◌,
  arith, ◌&&◌, if◌then◌else◌, last_or, map, fun_ext, take, subst, ltb,
}
use fxa_lite.Table.{select}
use fxa_lite.Table.Order.{sort_by, IsSorted, sort_by-IsSorted, select-sort_by}
use fxa_lite.SyncStorage.Model.{BsoRow, Db, SyncStore}
use fxa_lite.SyncStorage.Offset.{Sorting, newest, oldest, index, Offset}
use fxa_lite.SyncStorage.Store.Reads.{
  BsoQuery, order_rows, wanted, where_clause, resumes, first_newest, first_oldest, fetched,
  limit_of, bound_of, rows_to_skip,
}
use fxa_lite.SyncStorage.Paging.Window.{
  InOrder, keeps, drop-select-keeps, IsSorted-append_left, served-Upto_last, last-Upto_rest,
}
use fxa_lite.SyncStorage.Paging.Token.{Continues}

abbrev pub key : BsoRow → ℕ
key r = r.modified

-- Does the sort ask for the oldest first?
abbrev pub upwards : Option Sorting → Bool
upwards (some oldest) = true
upwards _ = false

abbrev first_of : Bool → BsoRow → BsoRow → Bool
first_of true = first_oldest
first_of false = first_newest

order_rows_lem :
    (sort : Option Sorting) (rows : List BsoRow)
    → sort ≢ some index
    → order_rows sort true rows ≡ sort_by (first_of (upwards sort)) rows
unfolding order_rows
order_rows_lem none rows h = refl
order_rows_lem (some newest) rows h = refl
order_rows_lem (some oldest) rows h = refl
order_rows_lem (some index) rows h = absurd (h refl)

resumes-none : (sort : Option Sorting) (m : ℕ) → resumes sort none m ≡ true
unfolding resumes
resumes-none none m = refl
resumes-none (some newest) m = refl
resumes-none (some oldest) m = refl
resumes-none (some index) m = refl

resumes_lem :
    (sort : Option Sorting) (bound m : ℕ)
    → sort ≢ some index
    → resumes sort (some bound) m ≡ keeps (upwards sort) bound m
unfolding resumes
resumes_lem none bound m h = refl
resumes_lem (some newest) bound m h = refl
resumes_lem (some oldest) bound m h = refl
resumes_lem (some index) bound m h = absurd (h refl)

first_yes : (up : Bool) (r s : BsoRow) → first_of up r s ≡ true → InOrder key up r s
unfolding first_oldest first_newest
first_yes true r s h = ground arith
first_yes false r s h = ground arith

first_no : (up : Bool) (r s : BsoRow) → first_of up r s ≡ false → InOrder key up s r
unfolding first_oldest first_newest
first_no true r s h = ground arith
first_no false r s h = ground arith

InOrder-trans :
    (up : Bool) (r s t : BsoRow) → InOrder key up r s → InOrder key up s t → InOrder key up r t
InOrder-trans true r s t h k = omega arith
InOrder-trans false r s t h k = omega arith

keeps_closed :
    (up : Bool) (bound : ℕ) (r s : BsoRow)
    → first_of up r s ≡ true
    → keeps up bound (key r) ≡ true
    → keeps up bound (key s) ≡ true
keeps_closed true bound r s h k = ground (arith, first_yes true r s h)
keeps_closed false bound r s h k = ground (arith, first_yes false r s h)

sort_rows-IsSorted :
    (up : Bool) (rows : List BsoRow) → IsSorted (InOrder key up) (sort_by (first_of up) rows)
sort_rows-IsSorted up =
    sort_by-IsSorted (first_of up) (InOrder key up) (InOrder-trans up) (first_yes up) (first_no up)

select-select {ℓ} :
    {A : Type ℓ} (p q : A → Bool) (rows : List A)
    → select (λ r. p r && q r) rows ≡ select q (select p rows)
unfolding select
select-select p q [] = refl
select-select p q (r ∷ rows) = ground (arith, select-select p q rows)

select_all {ℓ} :
    {A : Type ℓ} (p : A → Bool) (rows : List A) → select (λ r. p r && true) rows ≡ select p rows
unfolding select
select_all p [] = refl
select_all p (r ∷ rows) = ground (arith, select_all p rows)

module _ (store : SyncStore) (c : ℕ) (query : BsoQuery) (db : Db) where
  -- the whole result, in the order of the query
  abbrev pub all_rows : List BsoRow
  all_rows = order_rows query.sort true (select (wanted store c query) db.bsos)

  pub all_rows-IsSorted :
      query.sort ≢ some index → IsSorted (InOrder key (upwards query.sort)) all_rows
  all_rows-IsSorted h =
      rw (order_rows_lem query.sort (select (wanted store c query) db.bsos) h)
        (sort_rows-IsSorted (upwards query.sort) (select (wanted store c query) db.bsos))

  abbrev from_token : Option Offset → BsoQuery
  from_token o = record query { offset = o }

  where_clause-from_token :
      (o : Option Offset) (bound : Option ℕ)
      → bound_of (from_token o) ≡ bound
      → where_clause store c (from_token o) true
        ≡ (λ r. wanted store c query r && resumes query.sort bound r.modified)
  unfolding where_clause wanted
  where_clause-from_token o bound h =
      fun_ext λ r. ap (λ b. wanted store c query r && resumes query.sort b r.modified) h

  rows_without_bound :
      (o : Option Offset)
      → bound_of (from_token o) ≡ none
      → order_rows query.sort true (select (where_clause store c (from_token o) true) db.bsos)
        ≡ all_rows
  rows_without_bound o h =
      ap (λ p. order_rows query.sort true (select p db.bsos))
        (where_clause-from_token o none h
          ∙ fun_ext
              (λ r. ap (λ b. wanted store c query r && b) (resumes-none query.sort r.modified)))
      ∙ ap (order_rows query.sort true) (select_all (wanted store c query) db.bsos)

  rows_with_bound :
      (o : Option Offset) (bound : ℕ)
      → query.sort ≢ some index
      → bound_of (from_token o) ≡ some bound
      → order_rows query.sort true (select (where_clause store c (from_token o) true) db.bsos)
        ≡ select (λ r. keeps (upwards query.sort) bound (key r)) all_rows
  rows_with_bound o bound n h =
      let up = upwards query.sort in
      let q : BsoRow → Bool = λ r. keeps up bound (key r) in
      let narrowed = select (wanted store c query) db.bsos in
      ap (λ p. order_rows query.sort true (select p db.bsos))
        (where_clause-from_token o (some bound) h
          ∙ fun_ext (λ r.
            ap (λ b. wanted store c query r && b) (resumes_lem query.sort bound r.modified n)))
      ∙ ap (order_rows query.sort true) (select-select (wanted store c query) q db.bsos)
      ∙ order_rows_lem query.sort (select q narrowed) n
      ∙ sym (select-sort_by (first_of up) q (keeps_closed up bound) narrowed)
      ∙ ap (select q) (sym (order_rows_lem query.sort narrowed n))

  -- With a token that continues `served`, the statement selects the rest.
  pub fetched_lem :
      (o : Option Offset) (served rest : List BsoRow)
      → query.sort ≢ some index
      → all_rows ≡ served ++ rest
      → Continues (map key served) (bound_of (from_token o)) (rows_to_skip (from_token o))
      → fetched store c (from_token o) true db
        ≡ take (if ltb 0 (limit_of query) then suc (limit_of query) else 0) rest
  unfolding fetched
  fetched_lem o [] rest n e h = rw (rows_without_bound o h.0, h.1, e)
  fetched_lem o (x ∷ xs) rest n e h =
      let up = upwards query.sort in
      let sorted = subst (IsSorted (InOrder key up)) e (all_rows-IsSorted n) in
      let first = IsSorted-append_left key up (x ∷ xs) rest sorted in
      rw (rows_with_bound o (last_or (key x) (map key xs)) n h.0, h.1, e)
        (ap (take (if ltb 0 (limit_of query) then suc (limit_of query) else 0)) (
          drop-select-keeps key up (last_or (key x) (map key xs)) (x ∷ xs) rest first
            (served-Upto_last key up x xs first) (last-Upto_rest key up x xs rest sorted)))
