-- ===== src/SyncStorage/Paging/Pages.antt =====
-- The two forms of a page: the last one, and one with a token.
use fxa_lite.Prelude.{
  ℕ, suc, ◌≤◌, ◌<◌, ◌≡◌, true, none, some, List, arith, length, map, String, pop,
}
use mathlib.Core.Option.{Option}
use fxa_lite.Exec.{ok}
use fxa_lite.SyncStorage.Model.{BsoRow, bso_of_row, Db, SyncStore}
use fxa_lite.SyncStorage.Offset.{Offset, encode_next_offset}
use fxa_lite.SyncStorage.Store.Collections.{collection_id}
use fxa_lite.SyncStorage.Store.Reads.{
  BsoQuery, limit_of, records, get_bsos, fetched, bound_of, rows_to_skip,
}
use fxa_lite.SyncStorage.Paging.Rows.{key}

module _ (store : SyncStore) (collection : String) (c n : ℕ) (query : BsoQuery) (db : Db)
    (known : collection_id collection db ≡ ok c) (limited : limit_of query ≡ suc n) where
  pub get_bsos_last :
      (o : Option Offset) (rows : List BsoRow)
      → fetched store c (record query { offset = o }) true db ≡ rows
      → length rows ≤ suc n
      → get_bsos store collection (record query { offset = o }) true db
        ≡ ok (record { items = records (map bso_of_row rows); offset = none })
  unfolding get_bsos
  get_bsos_last o rows e h = rw (known, e, limited) (ground arith)

  pub get_bsos_more :
      (o : Option Offset) (rows : List BsoRow)
      → fetched store c (record query { offset = o }) true db ≡ rows
      → suc n < length rows
      → get_bsos store collection (record query { offset = o }) true db
        ≡ ok (record {
          items = records (map bso_of_row (pop rows));
          offset = some (
              encode_next_offset query.sort
                (rows_to_skip (record query { offset = o }))
                (bound_of (record query { offset = o }))
                (map key (pop rows)));
        })
  unfolding get_bsos
  get_bsos_more o rows e h = rw (known, e, limited) (ground arith)
