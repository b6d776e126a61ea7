-- ===== src/SyncStorage/Store/Writes.antt =====
-- store.py: the writes to records and collections, and the two statements that keep a collection's
-- timestamp: `check_write`, which refuses, and `update_collection`, which stamps.
use fxa_lite.Prelude.{
  ℕ, ◌+◌, ◌*◌, String, Bool, false, Option, none, some, List, [], ◌∷◌, ◌==◌, ◌&&◌, ◌||◌, ltb, leb,
  if◌then◌else◌, coalesce, get_or, is_some,
}
use fxa_lite.Prelude.Int.{ℤ}
use fxa_lite.Exec.{ok, pure, raise, reads, modify, ◌>>=◌, ◌>>◌}
use fxa_lite.Table.{fetch_one, delete, upsert, row_count}
use fxa_lite.SyncStorage.Model.{
  UserCollection, BsoRow, Db, Action, SyncStore, PostedBso, conflict_error, bso_not_found,
  collection_not_found, at_collection, in_collection, at_bso, tombstone,
}
use fxa_lite.SyncStorage.Store.Collections.{collection_id, get_or_create_collection_id}
use fxa_lite.SyncStorage.Store.Timestamps.{storage_timestamp}
use fxa_lite.SyncStorage.Store.Reads.{mem}

abbrev pub default_bso_ttl : ℕ
default_bso_ttl = 2100000000

module _ (store : SyncStore) where
  unfoldable pub refuse_stale : Option UserCollection → Action Unit
  refuse_stale none = pure tt
  refuse_stale (some row) = if leb store.now row.modified then raise conflict_error else pure tt

  unfoldable pub check_write : ℕ → Action Unit
  unfolding refuse_stale
  check_write c db = refuse_stale (fetch_one (at_collection store.uid c) db.user_collections) db

  -- the upsert into sync_user_collections
  unfoldable pub stamped : ℕ → Db → Db
  stamped c db = record db {
    user_collections =
        upsert (at_collection store.uid c) (λ r. record r { modified = store.now })
          (record { uid = store.uid; collection_id = c; modified = store.now }) db.user_collections;
  }

  unfoldable pub update_collection : ℕ → Action ℕ
  unfolding stamped
  update_collection c = do modify (stamped c); pure store.now

  module _ (payload : Option String) (sortindex : Option ℤ) (ttl : Option ℕ) where
    unfoldable pub expiry_of : ℕ
    expiry_of = store.now + get_or default_bso_ttl ttl * 1000

    -- the row that the INSERT would make
    unfoldable pub new_row : ℕ → String → BsoRow
    unfolding expiry_of
    new_row c bso_id = record {
      uid = store.uid;
      collection_id = c;
      id = bso_id;
      sortindex = sortindex;
      payload = get_or "" payload;
      modified = store.now;
      expiry = expiry_of;
    }

    -- the assignments in `updates`: none of them is DO NOTHING
    unfoldable pub updated_row : BsoRow → BsoRow
    unfolding expiry_of
    updated_row r = record r {
      sortindex = coalesce sortindex r.sortindex;
      payload = get_or r.payload payload;
      modified = if is_some payload || is_some sortindex then store.now else r.modified;
      expiry = if is_some ttl then expiry_of else r.expiry;
    }

    unfoldable pub written : ℕ → String → Db → Db
    unfolding new_row updated_row
    written c bso_id db = record db {
      bsos = upsert (at_bso store.uid c bso_id) updated_row (new_row c bso_id) db.bsos;
    }

  id_or_create : String → Option ℕ → Action ℕ
  id_or_create collection none = get_or_create_collection_id collection
  id_or_create collection (some c) = pure c

  -- the arguments stand in the order of the source's keywords
  unfoldable pub put_bso :
      String → String → Option String → Option ℤ → Option ℕ → Option ℕ → Bool → Action ℕ
  unfolding id_or_create
  put_bso collection bso_id payload sortindex ttl known touch_collection = do
    c ← id_or_create collection known
    modify (written payload sortindex ttl c bso_id)
    if touch_collection then update_collection c else pure store.now

  -- the loop of `post_bsos`
  unfoldable pub put_each : String → ℕ → List PostedBso → Action Unit
  put_each collection c [] = pure tt
  put_each collection c (b ∷ bsos) = do
    put_bso collection b.id b.payload b.sortindex b.ttl (some c) false
    put_each collection c bsos

  unfoldable pub post_bsos : String → List PostedBso → Bool → Action ℕ
  post_bsos collection bsos already_stamped = do
    c ← get_or_create_collection_id collection
    if already_stamped then pure tt else check_write c
    put_each collection c bsos
    update_collection c

  abbrev live_bso : ℕ → String → BsoRow → Bool
  live_bso c bso_id r = at_bso store.uid c bso_id r && ltb store.now r.expiry

  unfoldable pub delete_bso : String → String → Action ℕ
  delete_bso collection bso_id = do
    c ← reads (collection_id collection)
    deleted ← reads (λ db. ok (row_count (live_bso c bso_id) db.bsos))
    modify (λ db. record db { bsos = delete (live_bso c bso_id) db.bsos })
    if deleted == 0 then raise (bso_not_found bso_id) else update_collection c

  listed_bso : ℕ → List String → BsoRow → Bool
  listed_bso c ids r = in_collection store.uid c r && mem r.id ids

  delete_listed : ℕ → List String → Db → Db
  delete_listed c [] db = db
  delete_listed c (i ∷ ids) db = record db { bsos = delete (listed_bso c (i ∷ ids)) db.bsos }

  unfoldable pub delete_bsos : String → List String → Action ℕ
  unfolding delete_listed listed_bso
  delete_bsos collection ids = do
    c ← reads (collection_id collection)
    modify (delete_listed c ids)
    update_collection c

  -- a deleted collection moves the storage timestamp through the tombstone
  unfoldable pub delete_collection : String → Action ℕ
  delete_collection collection = do
    c ← reads (collection_id collection)
    deleted ← reads (λ db. ok (
        row_count (in_collection store.uid c) db.bsos
        + row_count (at_collection store.uid c) db.user_collections))
    modify (λ db. record db {
      bsos = delete (in_collection store.uid c) db.bsos;
      user_collections = delete (at_collection store.uid c) db.user_collections;
    })
    if deleted == 0
        then raise (collection_not_found collection)
        else do update_collection tombstone; reads (λ db. ok (storage_timestamp store db))

  unfoldable pub delete_storage : Action Unit
  delete_storage = modify (λ db. record db {
    bsos = delete (λ r. r.uid == store.uid) db.bsos;
    user_collections = delete (λ r. r.uid == store.uid) db.user_collections;
    batch_items = delete (λ r. r.uid == store.uid) db.batch_items;
    batches = delete (λ r. r.uid == store.uid) db.batches;
  })
