-- ===== src/SyncStorage/Staging.antt =====
-- Batches between their opening and their end: hidden while they are open, gone after a commit or
-- a wipe.
use fxa_lite.Prelude.{
  ℕ, String, ◌≡◌, refl, Bool, true, false, none, List, [], ◌∷◌, arith, ◌==◌, ◌&&◌, if◌then◌else◌,
}
use fxa_lite.Prelude.Int.{ℤ}
use fxa_lite.Exec.{ok, raised, pure, reads, modify, continue, ◌>>=◌}
use fxa_lite.Table.{fetch_one}
use fxa_lite.Table.Laws.{fetch_one-delete_of}
use fxa_lite.SyncStorage.Model.{
  Text, BatchItem, Db, Result, SyncStore, PostedBso, at_batch, batch_not_found,
}
use fxa_lite.SyncStorage.BatchId.{decode_batch_id}
use fxa_lite.SyncStorage.Store.Collections.{collection_id, get_or_create_known}
use fxa_lite.SyncStorage.Store.Writes.{delete_storage, update_collection}
use fxa_lite.SyncStorage.Store.Batches.{
  is_bindable, bound_integer, open_in, open_in_result, validate_batch, staged, stage_each,
  append_to_batch, landed, land_each, staged_items, delete_batch, commit_batch,
}

-- what another device can see: the records, and the timestamps of the collections
abbrev pub ShowsSame : Db → Db → Type 0
ShowsSame a b = (a.bsos ≡ b.bsos) × (a.user_collections ≡ b.user_collections)

module _ (store : SyncStore) where
  stage_each-ShowsSame :
      (b : ℤ) (bsos : List PostedBso) (db : Db) → ShowsSame (stage_each store b bsos db).1 db
  unfolding stage_each staged modify ◌>>=◌ pure
  stage_each-ShowsSame b [] db = (refl, refl)
  stage_each-ShowsSame b (p ∷ bsos) db = stage_each-ShowsSame b bsos (staged store b p db)

  -- Records that are appended to a batch, or refused by it, are seen by nobody: the records and
  -- the timestamps of the collections are what they were.
  pub append_to_batch-ShowsSame :
      (collection : String) (batch : Text) (bsos : List PostedBso) (db : Db)
      → ShowsSame (append_to_batch store collection batch bsos db).1 db
  unfolding append_to_batch reads ◌>>=◌
  append_to_batch-ShowsSame collection batch bsos db =
      by_validity (validate_batch store collection batch db)
    where
      by_decoding : (b : Result ℤ) → ShowsSame (continue b (λ n. stage_each store n bsos) db).1 db
      by_decoding (ok n) = stage_each-ShowsSame n bsos db
      by_decoding (raised e) = (refl, refl)

      by_validity :
          (valid : Result Bool)
          → ShowsSame
              (continue valid
                (λ v.
                  reads (λ _. if v then decode_batch_id batch else raised (batch_not_found batch))
                  >>= λ n. stage_each store n bsos)
                db).1
              db
      by_validity (ok v) =
          by_decoding (if v then decode_batch_id batch else raised (batch_not_found batch))
      by_validity (raised e) = (refl, refl)

  unopened :
      (b : ℤ) (db : Db) (c : Result ℕ)
      → is_bindable b ≡ true
      → ((c : ℕ)
          → fetch_one (λ r. at_batch store.uid b r && r.collection_id == c) db.batches ≡ none)
      → open_in_result store b db c ≡ ok false
  unfolding open_in_result open_in
  unopened b db (ok c) small gone = rw (small, gone c) refl
  unopened b db (raised e) small gone = refl

  validate_batch_gone :
      (collection : String) (batch : Text) (b : ℤ) (db : Db)
      → decode_batch_id batch ≡ ok b
      → is_bindable b ≡ true
      → ((c : ℕ)
          → fetch_one (λ r. at_batch store.uid b r && r.collection_id == c) db.batches ≡ none)
      → validate_batch store collection batch db ≡ ok false
  unfolding validate_batch
  validate_batch_gone collection batch b db decoded small gone =
      rw decoded (ground (arith, unopened b db (collection_id collection db) small gone))

  -- After a wipe of the storage, no batch is accepted under any id that decodes to an integer which
  -- sqlite3 can bind, one of 64 bits.
  pub validate_batch-delete_storage :
      (collection : String) (batch : Text) (b : ℤ) (db : Db)
      → decode_batch_id batch ≡ ok b
      → is_bindable b ≡ true
      → validate_batch store collection batch (delete_storage store db).1 ≡ ok false
  unfolding delete_storage modify
  validate_batch-delete_storage collection batch b db decoded small =
      validate_batch_gone collection batch b (delete_storage store db).1 decoded small
        (λ c. fetch_one-delete_of _ _ db.batches (λ r h. ground arith))

  bound_integer-ok : (b : ℤ) → is_bindable b ≡ true → bound_integer b ≡ ok b
  unfolding bound_integer
  bound_integer-ok b small = rw small refl

  land_each-ok : (c : ℕ) (items : List BatchItem) (db : Db) → (land_each store c items db).0 ≡ ok tt
  unfolding land_each modify ◌>>=◌ pure
  land_each-ok c [] db = refl
  land_each-ok c (i ∷ items) db = land_each-ok c items (landed store c i db)

  -- A commit under an id that decodes to an integer which sqlite3 can bind, one of 64 bits, to a
  -- collection that exists, returns the instant of the request, and the batch is not accepted any
  -- more.
  pub validate_batch-commit_batch :
      (collection : String) (batch : Text) (b : ℤ) (c : ℕ) (db : Db)
      → decode_batch_id batch ≡ ok b
      → is_bindable b ≡ true
      → collection_id collection db ≡ ok c
      → ((commit_batch store collection batch db).0 ≡ ok store.now)
        × (validate_batch store collection batch (commit_batch store collection batch db).1
            ≡ ok false)
  unfolding commit_batch delete_batch ◌>>=◌ modify update_collection reads pure
  validate_batch-commit_batch collection batch b c db decoded small known =
      rw
        (
          decoded,
          get_or_create_known collection db c known,
          bound_integer-ok b small,
          land_each-ok c (staged_items store b db) db,
          bound_integer-ok b small,
        )
        (
          refl,
          validate_batch_gone collection batch b _ decoded small (λ c'.
              fetch_one-delete_of _ _ (land_each store c (staged_items store b db) db).1.batches
                (λ r h. ground arith)),
        )
