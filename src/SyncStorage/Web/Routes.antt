-- ===== src/SyncStorage/Web/Routes.antt =====
-- The routes: each handler under `_run`, with the resource that answers its preconditions and, for
-- a write, the collection that has to be able to move forward.
use fxa_lite.Prelude.{String, Bool, Option, none, some, List}
use fxa_lite.SyncStorage.Model.{Text, Db, SyncStore, PostedBso}
use fxa_lite.SyncStorage.Store.Reads.{BsoQuery}
use fxa_lite.SyncStorage.Web.Run.{Conditions, Outcome, run, storage, collection, bso}
use fxa_lite.SyncStorage.Web.Handlers

-- One request, past authentication and the parsing of its query and body.
pub data Request : Type 0 where
  info_collections info_collection_counts info_collection_usage info_quota delete_all : Request
  get_collection : String → BsoQuery → Bool → Request
  post_collection :
      String → Option (Option Text × Bool) → List PostedBso → List (String × String) → Request
  delete_collection : String → List String → Request
  get_bso : String → String → Request
  put_bso : String → String → PostedBso → Request
  delete_bso : String → String → Request

unfoldable pub route : SyncStore → Conditions → Request → Db → Outcome × Db
route s h info_collections = run s h storage none (Handlers.info_collections s)
route s h info_collection_counts = run s h storage none (Handlers.info_collection_counts s)
route s h info_collection_usage = run s h storage none (Handlers.info_collection_usage s)
route s h info_quota = run s h storage none (Handlers.info_quota s)
route s h delete_all = run s h storage none (Handlers.delete_all s)
route s h (get_collection name query full) =
    run s h (collection name) none (Handlers.get_collection s name query full)
route s h (post_collection name batch valid failed) =
    run s h (collection name) (some name) (Handlers.post_collection s name batch valid failed)
route s h (delete_collection name ids) =
    run s h (collection name) (some name) (Handlers.delete_collection s name ids)
route s h (get_bso name id) = run s h (bso name id) none (Handlers.get_bso s name id)
route s h (put_bso name id body) =
    run s h (bso name id) (some name) (Handlers.put_bso s name id body)
route s h (delete_bso name id) = run s h (bso name id) (some name) (Handlers.delete_bso s name id)
