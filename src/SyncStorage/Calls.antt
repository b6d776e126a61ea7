-- ===== src/SyncStorage/Calls.antt =====
-- The methods of `SyncStore` that write, as one type of calls.
use fxa_lite.Prelude.{ℕ, String, Bool, true, none, Option, List}
use fxa_lite.Prelude.Int.{ℤ}
use fxa_lite.SyncStorage.Model.{Text, Db, SyncStore, PostedBso}
use fxa_lite.SyncStorage.Store.Writes.{
  put_bso, post_bsos, delete_bso, delete_bsos, delete_collection, delete_storage,
}
use fxa_lite.SyncStorage.Store.Batches.{create_batch, append_to_batch, commit_batch, delete_batch}

pub data Call : Type 0 where
  put : String → String → Option String → Option ℤ → Option ℕ → Call
  post : String → List PostedBso → Bool → Call
  remove_bso : String → String → Call
  remove_bsos : String → List String → Call
  remove_collection : String → Call
  wipe : Call
  open_batch : String → Call
  append : String → Text → List PostedBso → Call
  commit : String → Text → Call
  close_batch : Text → Call

-- The tables after a call, whether it returned or raised.
unfoldable pub perform : SyncStore → Call → Db → Db
perform store (put collection b p s t) db = (put_bso store collection b p s t none true db).1
perform store (post collection bsos stamped) db = (post_bsos store collection bsos stamped db).1
perform store (remove_bso collection b) db = (delete_bso store collection b db).1
perform store (remove_bsos collection ids) db = (delete_bsos store collection ids db).1
perform store (remove_collection collection) db = (delete_collection store collection db).1
perform store wipe db = (delete_storage store db).1
perform store (open_batch collection) db = (create_batch store collection db).1
perform store (append collection batch bsos) db = (append_to_batch store collection batch bsos db).1
perform store (commit collection batch) db = (commit_batch store collection batch db).1
perform store (close_batch batch) db = (delete_batch store batch db).1
