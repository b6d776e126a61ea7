-- ===== src/SyncStorage/Model.antt =====
-- The rows that syncstorage/store.py reads and writes (the tables of SCHEMA_V3 in db.py), the
-- records that leave it, and what its methods raise.
use fxa_lite.Prelude.{ℕ, String, Bool, Option, List, [], ◌∷◌, ◌==◌, ◌&&◌, str_eq}
use fxa_lite.Prelude.Int.{ℤ, eq_ℤ}
use fxa_lite.Exec

-- Text that the code takes apart, as its code points.
abbrev pub Text : Type 0
Text = List ℕ

-- a row of sync_collections
pub record Collection : Type 0 where
  pub id : ℕ
  pub name : String

-- a row of sync_user_collections
pub record UserCollection : Type 0 where
  pub uid : ℕ
  pub collection_id : ℕ
  pub modified : ℕ

-- a row of sync_bso
pub record BsoRow : Type 0 where
  pub uid : ℕ
  pub collection_id : ℕ
  pub id : String
  pub sortindex : Option ℤ
  pub payload : String
  pub modified : ℕ
  pub expiry : ℕ

-- a row of sync_batches; `decode_batch_id` may name a negative number, so ids are integers
pub record Batch : Type 0 where
  pub uid : ℕ
  pub batch_id : ℤ
  pub collection_id : ℕ

-- a row of sync_batch_items
pub record BatchItem : Type 0 where
  pub uid : ℕ
  pub batch_id : ℤ
  pub id : String
  pub sortindex : Option ℤ
  pub payload : Option String
  pub ttl_offset : Option ℕ

-- The tables, and the AUTOINCREMENT counter of sync_collections.
pub record Db : Type 0 where
  pub collections : List Collection
  pub next_collection : ℕ
  pub user_collections : List UserCollection
  pub bsos : List BsoRow
  pub batches : List Batch
  pub batch_items : List BatchItem

abbrev pub tombstone : ℕ
tombstone = 0

-- The database after SCHEMA_V3: collection 0 is seeded with the empty name.
abbrev pub fresh : Db
fresh = record {
  collections = record { id = tombstone; name = "" } ∷ [];
  next_collection = 1;
  user_collections = [];
  bsos = [];
  batches = [];
  batch_items = [];
}

-- a record as it leaves the database
pub record Bso : Type 0 where
  pub id : String
  pub modified : ℕ
  pub payload : String
  pub sortindex : Option ℤ
  pub expiry : ℕ

-- `_bso`
unfoldable pub bso_of_row : BsoRow → Bso
bso_of_row r = record {
  id = r.id;
  modified = r.modified;
  payload = r.payload;
  sortindex = r.sortindex;
  expiry = r.expiry;
}

-- models.py `PostedBso`: one record of a POST or PUT body
pub record PostedBso : Type 0 where
  pub id : String
  pub payload : Option String
  pub sortindex : Option ℤ
  pub ttl : Option ℕ

-- errors.py, by status code and Weave code
pub record SyncStorageError : Type 0 where
  pub status_code : ℕ
  pub weave : ℕ
  pub retry_after : Option ℕ

-- The subclasses of StoreError, the HTTP errors that a handler raises itself, the KeyError of a
-- dictionary lookup, and the OverflowError of an integer that sqlite3 cannot bind.
pub data Raised : Type 0 where
  collection_not_found : String → Raised
  bso_not_found : String → Raised
  batch_not_found : Text → Raised
  conflict_error : Raised
  key_error overflow_error : Raised
  http : SyncStorageError → Raised

abbrev pub Result : Type 0 → Type 0
Result A = Exec.Result Raised A

abbrev pub Action : Type 0 → Type 0
Action A = Exec.Exec Raised Db A

-- `SyncStore`: one user's storage for one request, which stamps every write with `now`
pub record SyncStore : Type 0 where
  pub uid : ℕ
  pub now : ℕ

-- The primary keys.
module _ (u c : ℕ) where
  abbrev pub at_collection : UserCollection → Bool
  at_collection r = r.uid == u && r.collection_id == c

  abbrev pub in_collection : BsoRow → Bool
  in_collection r = r.uid == u && r.collection_id == c

  abbrev pub at_bso : String → BsoRow → Bool
  at_bso b r = in_collection r && str_eq r.id b

module _ (u : ℕ) (b : ℤ) where
  abbrev pub at_batch : Batch → Bool
  at_batch r = r.uid == u && eq_ℤ r.batch_id b

  abbrev pub in_batch : BatchItem → Bool
  in_batch r = r.uid == u && eq_ℤ r.batch_id b

  abbrev pub at_item : String → BatchItem → Bool
  at_item i r = in_batch r && str_eq r.id i
