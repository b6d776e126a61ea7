-- ===== src/SyncStorage/Clock.antt =====
-- The timestamps of the records stay whole hundredths of a second, whichever method runs, as long
-- as each request's instant is one.
mod Rules
pub use Rules.{IsRound, HasRoundTimes}
use fxa_lite.Prelude.{
  ℕ, zero, suc, ◌%◌, String, ◌≡◌, Bool, true, false, Option, none, some, List, [], ◌∷◌, arith, ◌==◌,
  if◌then◌else◌, All, leb,
}
use fxa_lite.Prelude.Int.{ℤ, pos}
use fxa_lite.Exec
use fxa_lite.Exec.{pure, raise, reads, modify, ◌>>=◌, ◌>>◌}
use fxa_lite.Table.{fetch_one, delete, upsert}
use fxa_lite.Table.Laws.{All-delete, All-upsert}
use fxa_lite.SyncStorage.Model
use fxa_lite.SyncStorage.Model.{UserCollection, BatchItem, Db, SyncStore, PostedBso, Text}
use fxa_lite.SyncStorage.Store.Writes.{
  refuse_stale, check_write, stamped, update_collection, new_row, updated_row, written, put_bso,
  put_each, post_bsos, delete_bso, delete_bsos, delete_collection, delete_storage,
}
use fxa_lite.SyncStorage.Store.Batches.{
  try_ids, create_batch, staged, stage_each, append_to_batch, landed_row, landed_over, landed,
  land_each, delete_batch, max_batch_create_retry, commit_batch,
}
use fxa_lite.SyncStorage.Calls.{
  Call, put, post, remove_bso, remove_bsos, remove_collection, wipe, open_batch, append, commit,
  close_batch, perform,
}
use fxa_lite.SyncStorage.Isolation.{perform_all}
use Rules.{
  Keeps, Keeps-pure, Keeps-raise, Keeps-reads, Keeps-if, Keeps-bind, Keeps-modify, keep_rules,
  get_or_create-Keeps,
}

module _ (store : SyncStore) (round : store.now % 10 ≡ 0) where
  check_write-Keeps : (c : ℕ) → Keeps (check_write store c)
  unfolding check_write pure
  check_write-Keeps c = record {
    at = λ db h. refused (fetch_one (Model.at_collection store.uid c) db.user_collections) db h;
  }
    where
      refused :
          (o : Option UserCollection) (db : Db)
          → HasRoundTimes db
          → HasRoundTimes (refuse_stale store o db).1
      refused none db h = h
      refused (some row) db h =
          (Keeps-if (leb store.now row.modified) _ _ (Keeps-raise Model.conflict_error)
              (Keeps-pure tt)).at
            db h

  update_collection-Keeps : (c : ℕ) → Keeps (update_collection store c)
  unfolding update_collection stamped
  update_collection-Keeps c = search (keep_rules, Keeps-modify (stamped store c) (λ db h. h))

  written-HasRoundTimes :
      (p : Option String) (s : Option ℤ) (t : Option ℕ) (c : ℕ) (b : String) (db : Db)
      → HasRoundTimes db
      → HasRoundTimes (written store p s t c b db)
  unfolding written new_row updated_row
  written-HasRoundTimes p s t c b db h =
      All-upsert IsRound _ _ _ db.bsos round (λ r e k. ground arith) h

  stored-Keeps :
      (p : Option String) (s : Option ℤ) (t : Option ℕ) (b : String) (touch : Bool) (c : ℕ)
      → Keeps (
          modify (written store p s t c b)
          >> (if touch then update_collection store c else pure store.now))
  stored-Keeps p s t b touch c =
      Keeps-bind _ _ (Keeps-modify (written store p s t c b) (written-HasRoundTimes p s t c b))
        (λ _. Keeps-if touch _ _ (update_collection-Keeps c) (Keeps-pure store.now))

  put_bso-Keeps :
      (collection b : String) (p : Option String) (s : Option ℤ) (t : Option ℕ) (known : Option ℕ)
      (touch : Bool)
      → Keeps (put_bso store collection b p s t known touch)
  unfolding put_bso
  put_bso-Keeps collection b p s t none touch =
      Keeps-bind _ _ (get_or_create-Keeps collection) (stored-Keeps p s t b touch)
  put_bso-Keeps collection b p s t (some c) touch =
      Keeps-bind _ _ (Keeps-pure c) (stored-Keeps p s t b touch)

  put_each-Keeps :
      (collection : String) (c : ℕ) (bsos : List PostedBso)
      → Keeps (put_each store collection c bsos)
  unfolding put_each
  put_each-Keeps collection c [] = Keeps-pure tt
  put_each-Keeps collection c (b ∷ bsos) =
      Keeps-bind _ _ (put_bso-Keeps collection b.id b.payload b.sortindex b.ttl (some c) false)
        (λ _. put_each-Keeps collection c bsos)

  post_bsos-Keeps :
      (collection : String) (bsos : List PostedBso) (already : Bool)
      → Keeps (post_bsos store collection bsos already)
  unfolding post_bsos
  post_bsos-Keeps collection bsos already =
      search (
        keep_rules, get_or_create-Keeps, check_write-Keeps, put_each-Keeps, update_collection-Keeps,
      )

  delete_bso-Keeps : (collection b : String) → Keeps (delete_bso store collection b)
  unfolding delete_bso
  delete_bso-Keeps collection b = Keeps-bind _ _ (Keeps-reads _) λ c.
      Keeps-bind _ _ (Keeps-reads _) λ deleted.
        Keeps-bind _ _ (Keeps-modify _ (λ db. All-delete IsRound _ db.bsos))
          λ _. Keeps-if (deleted == 0) _ _ (Keeps-raise _) (update_collection-Keeps c)

  delete_bsos-Keeps :
      (collection : String) (ids : List String) → Keeps (delete_bsos store collection ids)
  unfolding delete_bsos
  delete_bsos-Keeps collection [] =
      Keeps-bind _ _ (Keeps-reads _)
        λ c. Keeps-bind _ _ (Keeps-modify _ (λ db h. h)) λ _. update_collection-Keeps c
  delete_bsos-Keeps collection (i ∷ ids) = Keeps-bind _ _ (Keeps-reads _) λ c.
      Keeps-bind _ _ (Keeps-modify _ (λ db. All-delete IsRound _ db.bsos))
        λ _. update_collection-Keeps c

  delete_collection-Keeps : (collection : String) → Keeps (delete_collection store collection)
  unfolding delete_collection
  delete_collection-Keeps collection = Keeps-bind _ _ (Keeps-reads _) λ c.
      Keeps-bind _ _ (Keeps-reads _) λ deleted.
        Keeps-bind _ _ (Keeps-modify _ (λ db. All-delete IsRound _ db.bsos)) λ _.
          Keeps-if (deleted == 0) _ _ (Keeps-raise _)
            (Keeps-bind _ _ (update_collection-Keeps 0) (λ _. Keeps-reads _))

  delete_storage-Keeps : Keeps (delete_storage store)
  unfolding delete_storage
  delete_storage-Keeps = Keeps-modify _ λ db. All-delete IsRound _ db.bsos

  try_ids-Keeps : (tries c b : ℕ) → Keeps (try_ids store tries c b)
  unfolding try_ids
  try_ids-Keeps zero c b = record { at = λ db h. h }
  try_ids-Keeps (suc tries) c b = record {
    at = λ db h. ground (arith, (try_ids-Keeps tries c (suc b)).at db h);
  }

  create_batch-Keeps : (collection : String) → Keeps (create_batch store collection)
  unfolding create_batch
  create_batch-Keeps collection =
      Keeps-bind _ _ (get_or_create-Keeps collection)
        (λ c. try_ids-Keeps max_batch_create_retry c store.now)

  stage_each-Keeps : (b : ℤ) (bsos : List PostedBso) → Keeps (stage_each store b bsos)
  unfolding stage_each staged
  stage_each-Keeps b [] = Keeps-pure tt
  stage_each-Keeps b (p ∷ bsos) =
      Keeps-bind _ _ (Keeps-modify (staged store b p) (λ db h. h)) (λ _. stage_each-Keeps b bsos)

  append_to_batch-Keeps :
      (collection : String) (batch : Text) (bsos : List PostedBso)
      → Keeps (append_to_batch store collection batch bsos)
  unfolding append_to_batch
  append_to_batch-Keeps collection batch bsos =
      Keeps-bind _ _ (Keeps-reads _)
        λ valid. Keeps-bind _ _ (Keeps-reads _) λ b. stage_each-Keeps b bsos

  landed-HasRoundTimes :
      (c : ℕ) (i : BatchItem) (db : Db) → HasRoundTimes db → HasRoundTimes (landed store c i db)
  unfolding landed landed_row landed_over
  landed-HasRoundTimes c i db h = All-upsert IsRound _ _ _ db.bsos round (λ r e k. round) h

  land_each-Keeps : (c : ℕ) (items : List BatchItem) → Keeps (land_each store c items)
  unfolding land_each
  land_each-Keeps c [] = Keeps-pure tt
  land_each-Keeps c (i ∷ items) =
      Keeps-bind _ _ (Keeps-modify (landed store c i) (landed-HasRoundTimes c i))
        (λ _. land_each-Keeps c items)

  delete_batch-Keeps : (batch : Text) → Keeps (delete_batch store batch)
  unfolding delete_batch
  delete_batch-Keeps batch =
      Keeps-bind _ _ (Keeps-reads _)
        λ n. Keeps-bind _ _ (Keeps-reads _) λ b. Keeps-modify _ λ db h. h

  commit_batch-Keeps :
      (collection : String) (batch : Text) → Keeps (commit_batch store collection batch)
  unfolding commit_batch
  commit_batch-Keeps collection batch = Keeps-bind _ _ (Keeps-reads _) λ b.
      Keeps-bind _ _ (get_or_create-Keeps collection) λ c. Keeps-bind _ _ (Keeps-reads _) λ n.
        Keeps-bind _ _ (Keeps-reads _) λ items. Keeps-bind _ _ (land_each-Keeps c items) λ _.
          Keeps-bind _ _ (update_collection-Keeps c)
            λ _. Keeps-bind _ _ (delete_batch-Keeps batch) λ _. Keeps-pure store.now

  perform-HasRoundTimes :
      (call : Call) (db : Db) → HasRoundTimes db → HasRoundTimes (perform store call db)
  unfolding perform
  perform-HasRoundTimes (put collection b p s t) db =
      (put_bso-Keeps collection b p s t none true).at db
  perform-HasRoundTimes (post collection bsos already) db =
      (post_bsos-Keeps collection bsos already).at db
  perform-HasRoundTimes (remove_bso collection b) db = (delete_bso-Keeps collection b).at db
  perform-HasRoundTimes (remove_bsos collection ids) db = (delete_bsos-Keeps collection ids).at db
  perform-HasRoundTimes (remove_collection collection) db =
      (delete_collection-Keeps collection).at db
  perform-HasRoundTimes wipe db = delete_storage-Keeps.at db
  perform-HasRoundTimes (open_batch collection) db = (create_batch-Keeps collection).at db
  perform-HasRoundTimes (append collection batch bsos) db =
      (append_to_batch-Keeps collection batch bsos).at db
  perform-HasRoundTimes (commit collection batch) db = (commit_batch-Keeps collection batch).at db
  perform-HasRoundTimes (close_batch batch) db = (delete_batch-Keeps batch).at db

-- However many write calls are made, by whichever users, and whether these succeed or fail: if
-- each request's instant is a multiple of ten milliseconds, so stay the timestamps of all records.
pub perform_all-HasRoundTimes :
    (history : List (SyncStore × Call)) (db : Db)
    → All (λ request. request.0.now % 10 ≡ 0) history
    → HasRoundTimes db
    → HasRoundTimes (perform_all history db)
unfolding perform_all
perform_all-HasRoundTimes [] db rounds h = h
perform_all-HasRoundTimes ((store, call) ∷ rest) db rounds h =
    perform_all-HasRoundTimes rest (perform store call db) rounds.1
      (perform-HasRoundTimes store rounds.0 call db h)
