-- ===== src/Tests/Data.antt =====
-- A user's bookmarks, and the two stores and the query that the tests use.
use fxa_lite.Prelude.{ℕ, String, ◌≡◌, refl, none, some, [], ◌∷◌}
use fxa_lite.Exec.{ok}
use fxa_lite.SyncStorage.Model.{BsoRow, Db, SyncStore}
use fxa_lite.SyncStorage.Store.Collections.{collection_id}
use fxa_lite.SyncStorage.Store.Reads.{BsoQuery}

abbrev pub row : String → ℕ → ℕ → BsoRow
row id modified expiry = record {
  uid = 1;
  collection_id = 1;
  id = id;
  sortindex = none;
  payload = "{}";
  modified = modified;
  expiry = expiry;
}

abbrev pub bookmarks : Db
bookmarks = record {
  collections = record { id = 0; name = "" } ∷ record { id = 1; name = "bookmarks" } ∷ [];
  next_collection = 2;
  user_collections = record { uid = 1; collection_id = 1; modified = 300 } ∷ [];
  bsos = row "a" 100 9000 ∷ row "b" 200 9000 ∷ row "c" 200 9000 ∷ row "d" 300 400 ∷ [];
  batches = [];
  batch_items = [];
}

abbrev pub alice : SyncStore
alice = record { uid = 1; now = 500 }

abbrev pub bob : SyncStore
bob = record { uid = 2; now = 510 }

abbrev pub by_two : BsoQuery
by_two = record { newer = none; older = none; sort = none; limit = some 2; offset = none; ids = [] }

pub bookmarks-known : collection_id "bookmarks" bookmarks ≡ ok 1
unfolding collection_id
bookmarks-known = refl
