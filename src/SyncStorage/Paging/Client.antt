-- ===== src/SyncStorage/Paging/Client.antt =====
-- A client that follows the tokens of a collection read.
use fxa_lite.Prelude.{
  ℕ, zero, suc, Bool, not, true, none, some, List, ◌++◌, if◌then◌else◌, ltb, String,
}
use mathlib.Core.Option
use mathlib.Core.Option.{Option}
use fxa_lite.Exec.{ok, raised}
use fxa_lite.SyncStorage.Model.{Bso, Db, Result}
use fxa_lite.SyncStorage.Offset.{Sorting, index, Offset, parse}
use fxa_lite.SyncStorage.Store.Reads.{BsoQuery, records, bso_ids, Page, get_bsos}

-- models.py `parse_query`, the cross-check at its end: may this query carry its token?
window_holds : Option Sorting → Option ℕ → Option ℕ → Option ℕ → Bool
window_holds (some index) newer older bound = true
window_holds sort newer older none = true
window_holds sort (some newer) older (some bound) = not (ltb bound newer)
window_holds sort none (some older) (some bound) = not (ltb older bound)
window_holds sort none none (some bound) = true

unfoldable pub offset_in_window : BsoQuery → Bool
unfolding window_holds
offset_in_window query =
    window_holds query.sort query.newer query.older
      (elim query.offset [ none ↦ none | some o ↦ o.timestamp ])

-- A client with `?full`: it sends the query, and again with the token of each page, until a page
-- has none. `none` is a refused query or token, or the end of the fuel.
module _ (next : Offset → Option (List Bso)) where
  resume : List Bso → Option Offset → Option (List Bso)
  resume page none = none
  resume page (some o) = Option.map (λ rest. page ++ rest) (next o)

  continue_from : Result Page → Option (List Bso)
  unfolding resume
  continue_from (raised e) = none
  continue_from (ok page) = elim page.items [
    | bso_ids ids ↦ none
    | records bsos ↦ elim page.offset [ none ↦ some bsos | some token ↦ resume bsos (parse token) ]
  ]

-- Each request has a store of its own, at the instant that the clock gives for it; the tables are the
-- same for all of them.
unfoldable pub read_all : ℕ → ℕ → (ℕ → ℕ) → String → BsoQuery → Db → Option (List Bso)
unfolding continue_from offset_in_window
read_all zero uid clock collection query db = none
read_all (suc fuel) uid clock collection query db =
    if offset_in_window query
    then continue_from
        (λ o.
          read_all fuel uid (λ i. clock (suc i)) collection (record query { offset = some o }) db)
        (get_bsos (record { uid = uid; now = clock 0 }) collection query true db)
    else none
