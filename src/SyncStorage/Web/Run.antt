-- ===== src/SyncStorage/Web/Run.antt =====
-- `_run`, `_precondition` and `weave_timestamp`. Headers that hold a timestamp are kept in
-- milliseconds; how they are printed is not modelled.
use fxa_lite.Prelude.{ℕ, String, Option, none, some, List, ltb, leb, if◌then◌else◌, max, get_or}
use fxa_lite.Exec.{ok, raised, pure, reads, ◌>>=◌, ◌>>◌}
use fxa_lite.SyncStorage.Model.{
  Text, Bso, Db, Raised, Result, Action, SyncStore, SyncStorageError, collection_not_found,
  batch_not_found, conflict_error, http,
}
use fxa_lite.SyncStorage.Store.Collections.{get_or_create_collection_id}
use fxa_lite.SyncStorage.Store.Timestamps.{storage_timestamp, collection_timestamp, bso_timestamp}
use fxa_lite.SyncStorage.Store.Reads.{Items}
use fxa_lite.SyncStorage.Store.Writes.{check_write}

-- errors.py
abbrev pub plain_error : ℕ → SyncStorageError
plain_error status = record { status_code = status; weave = 0; retry_after = none }

abbrev pub bad_request : SyncStorageError
bad_request = plain_error 400

abbrev pub not_found : SyncStorageError
not_found = plain_error 404

abbrev pub internal_error : SyncStorageError
internal_error = plain_error 500

abbrev pub conflict : SyncStorageError
conflict = record { status_code = 503; weave = 0; retry_after = some 10 }

-- the bodies of the JSON answers
pub data Body : Type 0 where
  empty : Body
  null : Body
  instant : ℕ → Body
  modified_at : ℕ → Body
  values : List (String × ℕ) → Body
  usage : ℕ → Body
  whole : Bso → Body
  page : Items → Body
  stored : ℕ → List String → List (String × String) → Body
  held : Text → List String → List (String × String) → Body

pub record Response : Type 0 where
  pub status : ℕ
  pub body : Body
  pub last_modified : Option ℕ
  pub weave_records : Option ℕ
  pub next_offset : Option Text
  pub weave_timestamp : Option ℕ

-- `_json(body)`
abbrev pub json : Body → Response
json body = record {
  status = 200;
  body = body;
  last_modified = none;
  weave_records = none;
  next_offset = none;
  weave_timestamp = none;
}

-- The two conditional headers as `parse_timestamp` reads them: absent, malformed or an instant.
pub record Conditions : Type 0 where
  pub if_modified_since : Option (Option ℕ)
  pub if_unmodified_since : Option (Option ℕ)

with_status : ℕ → ℕ → Option Response
with_status status timestamp =
    some (record (json empty) { status = status; last_modified = some timestamp })

compared : Option ℕ → (ℕ → Option Response) → Result (Option Response)
compared none answer = raised (http bad_request)
compared (some since) answer = ok (answer since)

unfoldable pub precondition : Conditions → ℕ → Result (Option Response)
unfolding compared with_status
precondition h timestamp = elim h.if_modified_since [
  | some since ↦ elim h.if_unmodified_since [
    | some _ ↦ raised (http bad_request)
    | none ↦ compared since (λ t. if leb timestamp t then with_status 304 timestamp else none)
  ]
  | none ↦ elim h.if_unmodified_since [
    | some since ↦ compared since (λ t. if ltb t timestamp then with_status 412 timestamp else none)
    | none ↦ ok none
  ]
]

-- which timestamp answers a precondition: of the storage, a collection or a record
pub data Resource : Type 0 where
  storage : Resource
  collection : String → Resource
  bso : String → String → Resource

-- `except CollectionNotFound: return 0`
or_zero : Result ℕ → Result ℕ
or_zero (ok t) = ok t
or_zero (raised (collection_not_found name)) = ok 0
or_zero (raised e) = raised e

unfoldable pub resolve : SyncStore → Resource → Db → Result ℕ
unfolding or_zero
resolve store storage db = ok (storage_timestamp store db)
resolve store (collection name) db = or_zero (collection_timestamp store name db)
resolve store (bso name id) db = or_zero (bso_timestamp store name id db)

-- `if "X-Last-Modified" not in response.headers`
unfoldable pub with_last_modified : ℕ → Response → Response
with_last_modified t r = record r { last_modified = some (get_or t r.last_modified) }

-- the write guard of a request that names a collection to write to
unfoldable pub guard : SyncStore → Option String → Action Unit
guard store none = pure tt
guard store (some name) = do c ← get_or_create_collection_id name; check_write store c

unfoldable pub handled :
    SyncStore → Option String → Action Response → ℕ → Option Response → Action Response
handled store write handler t (some early) = pure early
handled store write handler t none = do
  guard store write
  response ← handler
  pure (with_last_modified t response)

-- what runs inside the transaction
unfoldable pub inside :
    SyncStore → Conditions → Resource → Option String → Action Response → Action Response
unfolding handled
inside store h resource write handler = do
  t ← reads (resolve store resource)
  early ← reads (λ _. precondition h t)
  handled store write handler t early

pub data Outcome : Type 0 where
  response : Response → Outcome
  error : SyncStorageError → Outcome

-- the `except` clauses; a KeyError is nobody's and becomes the server's own 500
unfoldable pub error_of : Raised → SyncStorageError
error_of (http e) = e
error_of conflict_error = conflict
error_of (batch_not_found batch) = bad_request
error_of _ = internal_error

-- `weave_timestamp(response, store.now)`
unfoldable pub weave_stamped : ℕ → Response → Response
weave_stamped now r = record r { weave_timestamp = some (max now (get_or 0 r.last_modified)) }

-- ROLLBACK on the way out of an exception, COMMIT otherwise
unfoldable pub finished : SyncStore → Db → Result Response × Db → Outcome × Db
unfolding weave_stamped error_of
finished store before (ok r, after) = (response (weave_stamped store.now r), after)
finished store before (raised e, after) = (error (error_of e), before)

unfoldable pub run :
    SyncStore → Conditions → Resource → Option String → Action Response → Db → Outcome × Db
unfolding finished
run store h resource write handler db = finished store db (inside store h resource write handler db)
