-- ===== src/SyncStorage/Isolation.antt =====
-- What one user's store does to the rows of the others: nothing, whichever method runs.
mod Rules
mod Records
mod Batches
pub use Rules.{SameRows}
use fxa_lite.Prelude.{
  ℕ, zero, suc, String, ◌≡◌, ◌≢◌, refl, ◌∙◌, inl, inr, Bool, true, false, Option, none, some, List,
  [], ◌∷◌, arith, ◌==◌, ◌&&◌, if◌then◌else◌, Bool-cases, ==_iff, is_some, ltb, leb, sym, All,
}
use fxa_lite.Prelude.Int.{ℤ, pos}
use fxa_lite.Exec.{Result, ok, raised, pure, raise, reads, modify, ◌>>=◌, ◌>>◌}
use fxa_lite.Table.{select, fetch_one, delete, upsert}
use fxa_lite.Table.Laws.{select-delete_ne, select-upsert_ne}
use fxa_lite.SyncStorage.Model
use fxa_lite.SyncStorage.Model.{
  BsoRow, UserCollection, Batch, BatchItem, Db, Raised, Action, SyncStore, PostedBso, Text,
}
use fxa_lite.SyncStorage.BatchId.{decode_batch_id}
use fxa_lite.SyncStorage.Store.Collections.{
  collection_id, get_or_create_collection_id, insert_collection,
}
use fxa_lite.SyncStorage.Store.Reads.{mem}
use fxa_lite.SyncStorage.Store.Writes.{
  check_write, refuse_stale, stamped, update_collection, written, put_bso, put_each, post_bsos,
  delete_bso, delete_bsos, delete_collection, delete_storage,
}
use fxa_lite.SyncStorage.Store.Batches.{
  try_ids, create_batch, staged, stage_each, append_to_batch, landed, land_each, delete_batch,
  max_batch_create_retry, commit_batch,
}
use fxa_lite.SyncStorage.Calls.{
  Call, put, post, remove_bso, remove_bsos, remove_collection, wipe, open_batch, append, commit,
  close_batch, perform,
}
use Rules.{SameRows-refl, SameRows-trans}
use Records.{
  put_bso-Spares, post_bsos-Spares, delete_bso-Spares, delete_bsos-Spares, delete_collection-Spares,
  delete_storage-Spares,
}
use Batches.{create_batch-Spares, append_to_batch-Spares, commit_batch-Spares, delete_batch-Spares}

module _ (store : SyncStore) (u : ℕ) (other : u ≢ store.uid) where
  -- Whatever another user's store is asked to do, the rows of `u` are what they were.
  perform-SameRows : (call : Call) (db : Db) → SameRows u (perform store call db) db
  unfolding perform
  perform-SameRows (put collection b p s t) db =
      (put_bso-Spares store u other collection b p s t none true).at db
  perform-SameRows (post collection bsos stamped) db =
      (post_bsos-Spares store u other collection bsos stamped).at db
  perform-SameRows (remove_bso collection b) db =
      (delete_bso-Spares store u other collection b).at db
  perform-SameRows (remove_bsos collection ids) db =
      (delete_bsos-Spares store u other collection ids).at db
  perform-SameRows (remove_collection collection) db =
      (delete_collection-Spares store u other collection).at db
  perform-SameRows wipe db = (delete_storage-Spares store u other).at db
  perform-SameRows (open_batch collection) db = (create_batch-Spares store u other collection).at db
  perform-SameRows (append collection batch bsos) db =
      (append_to_batch-Spares store u other collection batch bsos).at db
  perform-SameRows (commit collection batch) db =
      (commit_batch-Spares store u other collection batch).at db
  perform-SameRows (close_batch batch) db = (delete_batch-Spares store u other batch).at db

-- A history of calls, each on the store of its own request.
unfoldable pub perform_all : List (SyncStore × Call) → Db → Db
perform_all [] db = db
perform_all ((store, call) ∷ rest) db = perform_all rest (perform store call db)

-- However many requests the other users make, with whatever writes, and whether these succeed or
-- fail: the records, timestamps, batches and staged items of a user are what they were before.
pub perform_all-SameRows :
    (u : ℕ) (history : List (SyncStore × Call)) (db : Db)
    → All (λ request. u ≢ request.0.uid) history
    → SameRows u (perform_all history db) db
unfolding perform_all
perform_all-SameRows u [] db h = SameRows-refl u db
perform_all-SameRows u ((store, call) ∷ rest) db h =
    SameRows-trans u _ _ db (perform_all-SameRows u rest (perform store call db) h.1)
      (perform-SameRows store u h.0 call db)
