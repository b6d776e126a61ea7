-- ===== src/SyncStorage/Store/Timestamps.antt =====
-- store.py: the timestamps that answer preconditions, and the per-collection reports of /info.
use fxa_lite.Prelude.{
  ℕ, ◌+◌, String, count, Bool, not, Option, none, some, List, [], ◌∷◌, ◌==◌, ◌&&◌, ltb,
  if◌then◌else◌,
}
use fxa_lite.Exec.{ok, raised}
use fxa_lite.Table.{select, fetch_one, sum_of, max_of}
use fxa_lite.SyncStorage.Model.{
  UserCollection, BsoRow, Db, Result, SyncStore, collection_not_found, at_collection, at_bso,
  tombstone,
}
use fxa_lite.SyncStorage.Store.Collections.{collection_id, collection_name}

-- A chain of fallible reads.
infixl 5 ◌>>=◌
abbrev pub ◌>>=◌ : {A B : Type 0} → Result A → (A → Result B) → Result B
ok a >>= f = f a
raised e >>= f = raised e

stamp_of : String → Option UserCollection → Result ℕ
stamp_of name none = raised (collection_not_found name)
stamp_of name (some row) = ok row.modified

unfoldable pub modified_or_zero : Option BsoRow → ℕ
modified_or_zero none = 0
modified_or_zero (some row) = row.modified

-- `{names[id]: value for ...}` over rows that are in the order of the table
with_names : Db → List (ℕ × ℕ) → Result (List (String × ℕ))
unfolding collection_name
with_names db [] = ok []
with_names db ((c, value) ∷ rows) = do
  name ← collection_name db c
  rest ← with_names db rows
  ok ((name, value) ∷ rest)

stamps : List UserCollection → List (ℕ × ℕ)
stamps [] = []
stamps (r ∷ rows) = (r.collection_id, r.modified) ∷ stamps rows

-- `GROUP BY collection_id`: one row for each id, which joins the group that is there
add_to_group : ℕ → ℕ → List (ℕ × ℕ) → List (ℕ × ℕ)
add_to_group c n [] = (c, n) ∷ []
add_to_group c n ((d, m) ∷ groups) =
    if d == c then (d, m + n) ∷ groups else (d, m) ∷ add_to_group c n groups

unfoldable pub group_by_collection : (BsoRow → ℕ) → List BsoRow → List (ℕ × ℕ)
unfolding add_to_group
group_by_collection f [] = []
group_by_collection f (r ∷ rows) = add_to_group r.collection_id (f r) (group_by_collection f rows)

module _ (store : SyncStore) where
  unfoldable pub storage_timestamp : Db → ℕ
  unfolding select max_of
  storage_timestamp db =
      max_of (λ r. r.modified) (select (λ r. r.uid == store.uid) db.user_collections)

  unfoldable pub collection_timestamp : String → Db → Result ℕ
  unfolding collection_id fetch_one stamp_of
  collection_timestamp name db = do
    c ← collection_id name db
    stamp_of name (fetch_one (at_collection store.uid c) db.user_collections)

  unfoldable pub bso_timestamp : String → String → Db → Result ℕ
  unfolding collection_id fetch_one modified_or_zero
  bso_timestamp collection bso_id db = do
    c ← collection_id collection db
    ok (modified_or_zero (fetch_one (at_bso store.uid c bso_id) db.bsos))

  unfoldable pub collection_timestamps : Db → Result (List (String × ℕ))
  unfolding with_names stamps select
  collection_timestamps db = with_names db (
      stamps (
        select (λ r. r.uid == store.uid && not (r.collection_id == tombstone)) db.user_collections))

  -- `uid = ? AND expiry > ?`
  unfoldable pub live : BsoRow → Bool
  live r = r.uid == store.uid && ltb store.now r.expiry

  unfoldable pub collection_counts : Db → Result (List (String × ℕ))
  unfolding with_names group_by_collection live select
  collection_counts db = with_names db (group_by_collection (λ _. 1) (select live db.bsos))

  unfoldable pub collection_usage : Db → Result (List (String × ℕ))
  unfolding with_names group_by_collection live select
  collection_usage db =
      with_names db (group_by_collection (λ r. count r.payload) (select live db.bsos))

  unfoldable pub storage_usage : Db → ℕ
  unfolding live select sum_of
  storage_usage db = sum_of (λ r. count r.payload) (select live db.bsos)
