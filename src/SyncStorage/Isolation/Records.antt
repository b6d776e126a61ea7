-- ===== src/SyncStorage/Isolation/Records.antt =====
-- The methods that write records and timestamps touch the rows of their own user only.
use fxa_lite.Prelude.{
  ℕ, String, ◌≢◌, refl, Bool, false, Option, none, some, List, [], ◌∷◌, arith, ◌==◌, ◌&&◌,
  if◌then◌else◌, ltb, leb,
}
use fxa_lite.Prelude.Int.{ℤ}
use fxa_lite.Exec.{Result, ok, raised, pure, modify, ◌>>◌}
use fxa_lite.Table.{fetch_one, delete}
use fxa_lite.Table.Laws.{select-delete_ne, select-upsert_ne}
use fxa_lite.SyncStorage.Model
use fxa_lite.SyncStorage.Model.{
  BsoRow, UserCollection, Batch, BatchItem, Db, Raised, Action, SyncStore, PostedBso, Text,
}
use fxa_lite.SyncStorage.Store.Collections.{
  collection_id, get_or_create_collection_id, insert_collection,
}
use fxa_lite.SyncStorage.Store.Reads.{mem}
use fxa_lite.SyncStorage.Store.Writes.{
  check_write, refuse_stale, stamped, update_collection, written, put_bso, put_each, post_bsos,
  delete_bso, delete_bsos, delete_collection, delete_storage,
}
use fxa_lite.SyncStorage.Isolation.Rules.{
  SameRows, SameRows-refl, Spares, Spares-pure, Spares-raise, Spares-reads, Spares-if, Spares-bind,
  Spares-modify, spare_rules,
}

module _ (store : SyncStore) (u : ℕ) (other : u ≢ store.uid) where
  pub stamped-SameRows : (c : ℕ) (db : Db) → SameRows u (stamped store c db) db
  unfolding stamped
  stamped-SameRows c db = record {
    bsos = refl;
    stamps =
        select-upsert_ne _ _ _ _ (ground arith) db.user_collections
          (λ r h. (ground arith, ground arith));
    batches = refl;
    items = refl;
  }

  pub written-SameRows :
      (p : Option String) (s : Option ℤ) (t : Option ℕ) (c : ℕ) (b : String) (db : Db)
      → SameRows u (written store p s t c b db) db
  unfolding written
  written-SameRows p s t c b db = record {
    bsos = select-upsert_ne _ _ _ _ (ground arith) db.bsos (λ r h. (ground arith, ground arith));
    stamps = refl;
    batches = refl;
    items = refl;
  }

  pub get_or_create-Spares : (name : String) → Spares u (get_or_create_collection_id name)
  unfolding get_or_create_collection_id
  get_or_create-Spares name = record { at = λ db. created (collection_id name db) db }
    where
      created :
          (r : Result Raised ℕ) (db : Db)
          → SameRows u
              (elim r as (λ _. Result Raised ℕ × Db) [
                | ok c ↦ (ok c, db)
                | raised e ↦
                    (collection_id name (insert_collection name db), insert_collection name db)
              ]).1
              db
      created (ok c) db = SameRows-refl u db
      created (raised e) db = record { bsos = refl; stamps = refl; batches = refl; items = refl }

  pub check_write-Spares : (c : ℕ) → Spares u (check_write store c)
  unfolding check_write pure
  check_write-Spares c = record {
    at = λ db. refused (fetch_one (Model.at_collection store.uid c) db.user_collections) db;
  }
    where
      refused : (o : Option UserCollection) (db : Db) → SameRows u (refuse_stale store o db).1 db
      refused none db = SameRows-refl u db
      refused (some row) db =
          (Spares-if u (leb store.now row.modified) _ _ (Spares-raise u Model.conflict_error)
              (Spares-pure u tt)).at
            db

  pub update_collection-Spares : (c : ℕ) → Spares u (update_collection store c)
  unfolding update_collection
  update_collection-Spares c =
      search (spare_rules, Spares-modify u (stamped store c) (stamped-SameRows c))

  pub stored-Spares :
      (p : Option String) (s : Option ℤ) (t : Option ℕ) (b : String) (touch : Bool) (c : ℕ)
      → Spares u (
          modify (written store p s t c b)
          >> (if touch then update_collection store c else pure store.now))
  stored-Spares p s t b touch c =
      Spares-bind u _ _ (Spares-modify u (written store p s t c b) (written-SameRows p s t c b))
        (λ _. Spares-if u touch _ _ (update_collection-Spares c) (Spares-pure u store.now))

  pub put_bso-Spares :
      (collection b : String) (p : Option String) (s : Option ℤ) (t : Option ℕ) (known : Option ℕ)
      (touch : Bool)
      → Spares u (put_bso store collection b p s t known touch)
  unfolding put_bso
  put_bso-Spares collection b p s t none touch =
      Spares-bind u _ _ (get_or_create-Spares collection) (stored-Spares p s t b touch)
  put_bso-Spares collection b p s t (some c) touch =
      Spares-bind u _ _ (Spares-pure u c) (stored-Spares p s t b touch)

  pub put_each-Spares :
      (collection : String) (c : ℕ) (bsos : List PostedBso)
      → Spares u (put_each store collection c bsos)
  unfolding put_each
  put_each-Spares collection c [] = search spare_rules
  put_each-Spares collection c (b ∷ bsos) =
      Spares-bind u _ _ (put_bso-Spares collection b.id b.payload b.sortindex b.ttl (some c) false)
        (λ _. put_each-Spares collection c bsos)

  pub post_bsos-Spares :
      (collection : String) (bsos : List PostedBso) (already : Bool)
      → Spares u (post_bsos store collection bsos already)
  unfolding post_bsos
  post_bsos-Spares collection bsos already = search (
    spare_rules, get_or_create-Spares, check_write-Spares, put_each-Spares,
    update_collection-Spares,
  )

  pub delete_bso-Spares : (collection b : String) → Spares u (delete_bso store collection b)
  unfolding delete_bso
  delete_bso-Spares collection b = Spares-bind u _ _ (Spares-reads u _) λ c.
      Spares-bind u _ _ (Spares-reads u _) λ deleted.
        Spares-bind u _ _ (Spares-modify u _ (deleted_rows c))
          λ _. Spares-if u (deleted == 0) _ _ (Spares-raise u _) (update_collection-Spares c)
    where
      deleted_rows :
          (c : ℕ) (db : Db)
          → SameRows u
              (record db {
                bsos = delete (λ r. Model.at_bso store.uid c b r && ltb store.now r.expiry) db.bsos;
              })
              db
      deleted_rows c db = record {
        bsos = select-delete_ne _ _ db.bsos (λ r h. ground arith);
        stamps = refl;
        batches = refl;
        items = refl;
      }

  pub delete_bsos-Spares :
      (collection : String) (ids : List String) → Spares u (delete_bsos store collection ids)
  unfolding delete_bsos
  delete_bsos-Spares collection [] =
      Spares-bind u _ _ (Spares-reads u _)
        λ c. Spares-bind u _ _ (Spares-modify u _ (SameRows-refl u)) λ _. update_collection-Spares c
  delete_bsos-Spares collection (i ∷ ids) =
      Spares-bind u _ _ (Spares-reads u _)
        λ c. Spares-bind u _ _ (Spares-modify u _ (deleted_rows c)) λ _. update_collection-Spares c
    where
      deleted_rows :
          (c : ℕ) (db : Db)
          → SameRows u
              (record db {
                bsos =
                    delete (λ r. Model.in_collection store.uid c r && mem r.id (i ∷ ids)) db.bsos;
              })
              db
      deleted_rows c db = record {
        bsos = select-delete_ne _ _ db.bsos (λ r h. ground arith);
        stamps = refl;
        batches = refl;
        items = refl;
      }

  pub delete_collection-Spares :
      (collection : String) → Spares u (delete_collection store collection)
  unfolding delete_collection
  delete_collection-Spares collection = Spares-bind u _ _ (Spares-reads u _) λ c.
      Spares-bind u _ _ (Spares-reads u _) λ deleted.
        Spares-bind u _ _ (Spares-modify u _ (deleted_rows c)) λ _.
          Spares-if u (deleted == 0) _ _ (Spares-raise u _)
            (Spares-bind u _ _ (update_collection-Spares 0) (λ _. Spares-reads u _))
    where
      deleted_rows :
          (c : ℕ) (db : Db)
          → SameRows u
              (record db {
                bsos = delete (Model.in_collection store.uid c) db.bsos;
                user_collections = delete (Model.at_collection store.uid c) db.user_collections;
              })
              db
      deleted_rows c db = record {
        bsos = select-delete_ne _ _ db.bsos (λ r h. ground arith);
        stamps = select-delete_ne _ _ db.user_collections (λ r h. ground arith);
        batches = refl;
        items = refl;
      }

  pub delete_storage-Spares : Spares u (delete_storage store)
  unfolding delete_storage
  delete_storage-Spares = Spares-modify u _ λ db. record {
    bsos = select-delete_ne _ _ db.bsos (λ r h. ground arith);
    stamps = select-delete_ne _ _ db.user_collections (λ r h. ground arith);
    batches = select-delete_ne _ _ db.batches (λ r h. ground arith);
    items = select-delete_ne _ _ db.batch_items (λ r h. ground arith);
  }
