-- ===== src/SyncStorage/Paging/Complete.antt =====
-- Nothing is lost and nothing is served twice along the tokens of a collection read.
use fxa_lite.Prelude.{
  ℕ, suc, ◌%◌, ◌^◌, ◌<◌, ◌≡◌, ◌≢◌, true, some, List, ◌++◌, length, map, String, All,
}
use mathlib.Core.Option.{Option}
use fxa_lite.Exec.{ok}
use fxa_lite.SyncStorage.Model.{BsoRow, Db, SyncStore}
use fxa_lite.SyncStorage.Offset.{index, Offset}
use fxa_lite.SyncStorage.Store.Collections.{collection_id}
use fxa_lite.SyncStorage.Store.Reads.{BsoQuery, limit_of, bound_of, rows_to_skip, above, below}
use fxa_lite.SyncStorage.Paging.Token.{Continues}
use fxa_lite.SyncStorage.Paging.Rows.{key}

-- the window of the query, and a whole hundredth
abbrev IsInside : BsoQuery → ℕ → Type 0
IsInside query m =
    (below query.older m ≡ true) × (above query.newer m ≡ true) × (m % 10 ≡ 0) × (m < 2 ^ 63)

abbrev pub request_at : ℕ → ℕ → SyncStore
request_at uid now = record { uid = uid; now = now }

module _ (uid : ℕ) (collection : String) (c n : ℕ) (query : BsoQuery) (db : Db)
    (known : collection_id collection db ≡ ok c) (limited : limit_of query ≡ suc n)
    (by_time : query.sort ≢ some index) (all : List BsoRow) (few : length all < 2 ^ 63) where
  abbrev token_query : Option Offset → BsoQuery
  token_query o = record query { offset = o }

  abbrev IsAt : Option Offset → List BsoRow → List BsoRow → Type 0
  IsAt o served rest =
      (all ≡ served ++ rest)
      × All (λ r. IsInside query (key r)) (served ++ rest)
      × Continues (map key served) (bound_of (token_query o)) (rows_to_skip (token_query o))
