-- ===== src/SyncStorage/Web/Handlers.antt =====
-- The handlers of the routes, behind validation and authentication: what each does to the tables,
-- and what it answers.
use fxa_lite.Prelude.{
  ℕ, String, Bool, true, false, Option, none, some, List, [], ◌∷◌, if◌then◌else◌, map, length,
}
use fxa_lite.Exec.{Result, ok, raised, pure, raise, reads, ◌>>=◌, ◌>>◌}
use fxa_lite.SyncStorage.Model.{
  Text, Bso, Raised, Action, SyncStore, PostedBso, collection_not_found, bso_not_found, http,
}
use fxa_lite.SyncStorage.Store.Timestamps.{
  storage_timestamp, collection_timestamps, collection_counts, collection_usage, storage_usage,
}
use fxa_lite.SyncStorage.Store.Reads
use fxa_lite.SyncStorage.Store.Reads.{BsoQuery, Items, records, bso_ids, Page, get_bsos}
use fxa_lite.SyncStorage.Store.Writes
use fxa_lite.SyncStorage.Store.Batches.{create_batch, validate_batch, append_to_batch, commit_batch}
use fxa_lite.SyncStorage.Web.Run.{
  null, instant, modified_at, values, usage, whole, page, stored, held, Response, json, bad_request,
  not_found,
}

-- `try: m except …: h`; the tables keep what `m` wrote before it raised
abbrev pub catching : {A : Type 0} → Action A → (Raised → Action A) → Action A
catching m h db = let (r, db') = m db in elim r [ ok a ↦ (ok a, db') | raised e ↦ h e db' ]

module _ (store : SyncStore) where
  unfoldable pub info_collections : Action Response
  info_collections = do
    result ← reads (collection_timestamps store)
    pure (record (json (values result)) { weave_records = some (length result) })

  unfoldable pub info_collection_counts : Action Response
  info_collection_counts = do
    result ← reads (collection_counts store)
    pure (record (json (values result)) { weave_records = some (length result) })

  -- in bytes; the route divides by 1024
  unfoldable pub info_collection_usage : Action Response
  info_collection_usage = do
    result ← reads (collection_usage store)
    pure (record (json (values result)) { weave_records = some (length result) })

  unfoldable pub info_quota : Action Response
  info_quota = do used ← reads (λ db. ok (storage_usage store db)); pure (json (usage used))

  unfoldable pub delete_all : Action Response
  delete_all = do Writes.delete_storage store; pure (json null)

  no_items : Bool → Items
  no_items true = records []
  no_items false = bso_ids []

  count_items : Items → ℕ
  count_items (records bsos) = length bsos
  count_items (bso_ids ids) = length ids

  -- a collection that does not exist is an empty page
  page_or_empty : Bool → Result Raised Page → Result Raised Page
  page_or_empty full (ok p) = ok p
  page_or_empty full (raised (collection_not_found name)) =
      ok (record { items = no_items full; offset = none })
  page_or_empty full (raised e) = raised e

  unfoldable pub get_collection : String → BsoQuery → Bool → Action Response
  unfolding page_or_empty no_items count_items
  get_collection name query full = do
    found ← reads (λ db. page_or_empty full (get_bsos store name query full db))
    pure (record (json (page found.items)) {
      weave_records = some (count_items found.items);
      next_offset = found.offset;
    })

  ids_of : List PostedBso → List String
  ids_of = map (λ b. b.id)

  stored_response : ℕ → List PostedBso → List (String × String) → Response
  stored_response modified valid failed = record (json (stored modified (ids_of valid) failed)) {
    last_modified = some modified;
  }

  -- `BatchRequest`, where no id opens a new batch
  open_or_check : String → Option Text → Action Text
  open_or_check name none = create_batch store name
  open_or_check name (some batch) = do
    valid ← reads (validate_batch store name batch)
    if valid then pure batch else raise (http bad_request)

  append_any : String → Text → List PostedBso → Action Unit
  append_any name batch [] = pure tt
  append_any name batch (b ∷ bsos) = append_to_batch store name batch (b ∷ bsos)

  -- records that come with the commit are written after the batch, into the stamp it has made
  post_any : String → List PostedBso → ℕ → Action ℕ
  post_any name [] modified = pure modified
  post_any name (b ∷ bsos) modified = Writes.post_bsos store name (b ∷ bsos) true

  finish_batch : String → Text → Bool → List PostedBso → List (String × String) → Action Response
  finish_batch name batch false valid failed = do
    append_any name batch valid
    pure (record (json (held batch (ids_of valid) failed)) { status = 202 })
  finish_batch name batch true valid failed = do
    landed ← commit_batch store name batch
    modified ← post_any name valid landed
    pure (stored_response modified valid failed)

  unfoldable pub post_batch :
      String → Option Text → Bool → List PostedBso → List (String × String) → Action Response
  unfolding open_or_check finish_batch append_any post_any stored_response ids_of
  post_batch name id commit valid failed = do
    batch ← open_or_check name id
    finish_batch name batch commit valid failed

  plain_post : String → List PostedBso → List (String × String) → Action Response
  plain_post name valid failed = do
    modified ← Writes.post_bsos store name valid false
    pure (stored_response modified valid failed)

  -- a batch is an optional id and whether it commits; one that opens and commits is a plain POST
  unfoldable pub post_collection :
      String
      → Option (Option Text × Bool)
      → List PostedBso
      → List (String × String)
      → Action Response
  unfolding plain_post stored_response ids_of
  post_collection name none valid failed = plain_post name valid failed
  post_collection name (some (none, true)) valid failed = plain_post name valid failed
  post_collection name (some (none, false)) valid failed = post_batch name none false valid failed
  post_collection name (some (some batch, commit)) valid failed =
      post_batch name (some batch) commit valid failed

  -- deleting what is not there is no failure
  or_storage_timestamp : Raised → Action ℕ
  or_storage_timestamp (collection_not_found name) = reads (λ db. ok (storage_timestamp store db))
  or_storage_timestamp (bso_not_found id) = reads (λ db. ok (storage_timestamp store db))
  or_storage_timestamp e = raise e

  unfoldable pub delete_collection : String → List String → Action Response
  unfolding or_storage_timestamp
  delete_collection name [] = do
    modified ← catching (Writes.delete_collection store name) or_storage_timestamp
    pure (json (instant modified))
  delete_collection name (i ∷ ids) = do
    modified ← catching (Writes.delete_bsos store name (i ∷ ids)) or_storage_timestamp
    pure (record (json (instant modified)) { last_modified = some modified })

  found_or_404 : Result Raised (Option Bso) → Result Raised Bso
  found_or_404 (ok (some b)) = ok b
  found_or_404 (ok none) = raised (http not_found)
  found_or_404 (raised (collection_not_found name)) = raised (http not_found)
  found_or_404 (raised e) = raised e

  unfoldable pub get_bso : String → String → Action Response
  unfolding found_or_404
  get_bso name id = do
    found ← reads (λ db. found_or_404 (Reads.get_bso store name id db))
    pure (json (whole found))

  unfoldable pub put_bso : String → String → PostedBso → Action Response
  put_bso name id body = do
    modified ← Writes.put_bso store name id body.payload body.sortindex body.ttl none true
    pure (record (json (instant modified)) { last_modified = some modified })

  or_404 : Raised → Action ℕ
  or_404 (collection_not_found name) = raise (http not_found)
  or_404 (bso_not_found id) = raise (http not_found)
  or_404 e = raise e

  unfoldable pub delete_bso : String → String → Action Response
  unfolding or_404
  delete_bso name id = do
    modified ← catching (Writes.delete_bso store name id) or_404
    pure (record (json (modified_at modified)) { last_modified = some modified })
