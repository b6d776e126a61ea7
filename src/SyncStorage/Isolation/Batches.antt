-- ===== src/SyncStorage/Isolation/Batches.antt =====
-- So do the methods that stage and land batches.
use fxa_lite.Prelude.{
  ℕ, zero, suc, String, ◌≢◌, refl, Bool, true, false, List, [], ◌∷◌, arith, if◌then◌else◌, is_some,
}
use fxa_lite.Prelude.Int.{ℤ, pos}
use fxa_lite.Table.{select, fetch_one}
use fxa_lite.Table.Laws.{select-delete_ne, select-upsert_ne}
use fxa_lite.SyncStorage.Model
use fxa_lite.SyncStorage.Model.{
  BsoRow, UserCollection, Batch, BatchItem, Db, Raised, Action, SyncStore, PostedBso, Text,
}
use fxa_lite.SyncStorage.Store.Batches.{
  try_ids, create_batch, staged, stage_each, append_to_batch, landed, land_each, delete_batch,
  max_batch_create_retry, commit_batch,
}
use fxa_lite.SyncStorage.Isolation.Rules.{
  SameRows, SameRows-refl, Spares, Spares-pure, Spares-reads, Spares-bind, Spares-modify,
}
use fxa_lite.SyncStorage.Isolation.Records.{get_or_create-Spares, update_collection-Spares}

module _ (store : SyncStore) (u : ℕ) (other : u ≢ store.uid) where
  pub staged-SameRows : (b : ℤ) (p : PostedBso) (db : Db) → SameRows u (staged store b p db) db
  unfolding staged
  staged-SameRows b p db = record {
    bsos = refl;
    stamps = refl;
    batches = refl;
    items =
        select-upsert_ne _ _ _ _ (ground arith) db.batch_items
          (λ r h. (ground arith, ground arith));
  }

  pub landed-SameRows : (c : ℕ) (i : BatchItem) (db : Db) → SameRows u (landed store c i db) db
  unfolding landed
  landed-SameRows c i db = record {
    bsos = select-upsert_ne _ _ _ _ (ground arith) db.bsos (λ r h. (ground arith, ground arith));
    stamps = refl;
    batches = refl;
    items = refl;
  }

  pub either :
      {A : Type 0} (b : Bool) (x y : A × Db) (db : Db)
      → SameRows u x.1 db
      → SameRows u y.1 db
      → SameRows u (if b then x else y).1 db
  either true x y db h k = h
  either false x y db h k = k

  pub try_ids-Spares : (tries c b : ℕ) → Spares u (try_ids store tries c b)
  unfolding try_ids
  try_ids-Spares zero c b = record { at = λ db. SameRows-refl u db }
  try_ids-Spares (suc tries) c b = record {
    at = λ db.
        either (is_some (fetch_one (Model.at_batch store.uid (pos b)) db.batches)) _ _ db
          ((try_ids-Spares tries c (suc b)).at db)
          (record {
            bsos = refl;
            stamps = refl;
            batches = unfold select in ground arith;
            items = refl;
          });
  }

  pub create_batch-Spares : (collection : String) → Spares u (create_batch store collection)
  unfolding create_batch
  create_batch-Spares collection =
      Spares-bind u _ _ (get_or_create-Spares store u other collection)
        (λ c. try_ids-Spares max_batch_create_retry c store.now)

  pub stage_each-Spares : (b : ℤ) (bsos : List PostedBso) → Spares u (stage_each store b bsos)
  unfolding stage_each
  stage_each-Spares b [] = Spares-pure u tt
  stage_each-Spares b (p ∷ bsos) =
      Spares-bind u _ _ (Spares-modify u (staged store b p) (staged-SameRows b p))
        (λ _. stage_each-Spares b bsos)

  pub append_to_batch-Spares :
      (collection : String) (batch : Text) (bsos : List PostedBso)
      → Spares u (append_to_batch store collection batch bsos)
  unfolding append_to_batch
  append_to_batch-Spares collection batch bsos =
      Spares-bind u _ _ (Spares-reads u _)
        λ valid. Spares-bind u _ _ (Spares-reads u _) λ b. stage_each-Spares b bsos

  pub land_each-Spares : (c : ℕ) (items : List BatchItem) → Spares u (land_each store c items)
  unfolding land_each
  land_each-Spares c [] = Spares-pure u tt
  land_each-Spares c (i ∷ items) =
      Spares-bind u _ _ (Spares-modify u (landed store c i) (landed-SameRows c i))
        (λ _. land_each-Spares c items)

  pub delete_batch-Spares : (batch : Text) → Spares u (delete_batch store batch)
  unfolding delete_batch
  delete_batch-Spares batch = Spares-bind u _ _ (Spares-reads u _) λ n.
      Spares-bind u _ _ (Spares-reads u _) λ b. Spares-modify u _ λ db. record {
        bsos = refl;
        stamps = refl;
        batches = select-delete_ne _ _ db.batches (λ r h. ground arith);
        items = select-delete_ne _ _ db.batch_items (λ r h. ground arith);
      }

  pub commit_batch-Spares :
      (collection : String) (batch : Text) → Spares u (commit_batch store collection batch)
  unfolding commit_batch
  commit_batch-Spares collection batch = Spares-bind u _ _ (Spares-reads u _) λ b.
      Spares-bind u _ _ (get_or_create-Spares store u other collection) λ c.
        Spares-bind u _ _ (Spares-reads u _) λ n. Spares-bind u _ _ (Spares-reads u _) λ items.
          Spares-bind u _ _ (land_each-Spares c items) λ _.
            Spares-bind u _ _ (update_collection-Spares store u other c)
              λ _. Spares-bind u _ _ (delete_batch-Spares batch) λ _. Spares-pure u store.now
