-- ===== src/SyncStorage/Store/Collections.antt =====
-- store.py: the names of collections, which are global and not per user.
use fxa_lite.Prelude.{◌≡◌, ℕ, suc, String, Option, none, some, [], ◌∷◌, ◌++◌, ◌==◌, str_eq}
use fxa_lite.Exec.{ok, raised}
use fxa_lite.Table.{fetch_one}
use fxa_lite.SyncStorage.Model.{Collection, Db, Result, Action, collection_not_found, key_error}

found_id : String → Option Collection → Result ℕ
found_id name none = raised (collection_not_found name)
found_id name (some row) = ok row.id

unfoldable pub collection_id : String → Db → Result ℕ
unfolding fetch_one found_id
collection_id name db = found_id name (fetch_one (λ r. str_eq r.name name) db.collections)

-- `INSERT OR IGNORE` of a name that was not found; sqlite hands out the next id.
abbrev pub insert_collection : String → Db → Db
insert_collection name db = record db {
  collections = db.collections ++ (record { id = db.next_collection; name = name } ∷ []);
  next_collection = suc db.next_collection;
}

-- `except CollectionNotFound`: insert, and look again
unfoldable pub get_or_create_collection_id : String → Action ℕ
get_or_create_collection_id name db = elim (collection_id name db) [
  | ok c ↦ (ok c, db)
  | raised e ↦ let db' = insert_collection name db in (collection_id name db', db')
]

named : Option Collection → Result String
named none = raised key_error
named (some row) = ok row.name

-- `names[id]` for the dictionary that `collection_names` builds
unfoldable pub collection_name : Db → ℕ → Result String
unfolding fetch_one named
collection_name db c = named (fetch_one (λ r. r.id == c) db.collections)

pub get_or_create_known :
    (name : String) (db : Db) (c : ℕ)
    → collection_id name db ≡ ok c
    → get_or_create_collection_id name db ≡ (ok c, db)
unfolding get_or_create_collection_id
get_or_create_known name db c h = rw (h, get_or_create_collection_id)
