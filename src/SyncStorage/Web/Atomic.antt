-- ===== src/SyncStorage/Web/Atomic.antt =====
-- What `_run` promises of every request: all or nothing, and no write to a collection that is
-- stamped at its instant or later.
use fxa_lite.Prelude.{ℕ, ◌≤◌, String, ◌≡◌, refl, Option, none, some, le→leb}
use fxa_lite.Exec.{Result, ok, raised, ◌>>=◌}
use fxa_lite.Table.{fetch_one}
use fxa_lite.SyncStorage.Model.{
  Db, Raised, Action, SyncStore, SyncStorageError, UserCollection, at_collection,
}
use fxa_lite.SyncStorage.Store.Collections.{collection_id, get_or_create_known}
use fxa_lite.SyncStorage.Store.Writes.{check_write}
use fxa_lite.SyncStorage.Web.Run.{
  Response, Conditions, Resource, response, error, run, finished, inside, resolve, precondition,
  guard, weave_stamped, with_last_modified, conflict,
}

-- the timestamp of a user's collection, if it has one
abbrev pub stamp_of : Db → ℕ → ℕ → Option UserCollection
stamp_of db u c = fetch_one (at_collection u c) db.user_collections

finished-error :
    (store : SyncStore) (before : Db) (r : Result Raised Response × Db) (e : SyncStorageError)
    → (finished store before r).0 ≡ error e
    → (finished store before r).1 ≡ before
unfolding finished
finished-error store before (ok r, after) e h = cc
finished-error store before (raised x, after) e h = refl

module _ (store : SyncStore) (h : Conditions) (resource : Resource) (write : Option String)
    (handler : Action Response) (db : Db) where
  -- A request that is answered by an error has changed nothing, whatever its handler wrote
  -- before it raised.
  pub run-error :
      (e : SyncStorageError)
      → (run store h resource write handler db).0 ≡ error e
      → (run store h resource write handler db).1 ≡ db
  unfolding run
  run-error e = finished-error store db (inside store h resource write handler db) e

  -- A request that passes its preconditions and its guard is answered by its handler, and what
  -- the handler wrote is committed.
  pub run-through :
      (t : ℕ) (db' : Db) (r : Response)
      → resolve store resource db ≡ ok t
      → precondition h t ≡ ok none
      → guard store write db ≡ (ok tt, db)
      → handler db ≡ (ok r, db')
      → run store h resource write handler db
        ≡ (response (weave_stamped store.now (with_last_modified t r)), db')
  unfolding run inside ◌>>=◌
  run-through t db' r at through passed answered = rw (at, through, passed, answered) refl

module _ (store : SyncStore) (h : Conditions) (resource : Resource) (name : String)
    (handler : Action Response) (db : Db) (t c : ℕ) (at : resolve store resource db ≡ ok t)
    (through : precondition h t ≡ ok none) (known : collection_id name db ≡ ok c) where
  -- A write that passes its preconditions, to a collection that exists and is stamped at the
  -- instant of the request or later, is refused by a 503 that says when to come back, and changes
  -- nothing.
  pub run-conflict :
      (row : UserCollection)
      → stamp_of db store.uid c ≡ some row
      → store.now ≤ row.modified
      → run store h resource (some name) handler db ≡ (error conflict, db)
  unfolding run inside ◌>>=◌ guard check_write
  run-conflict row stamped late =
      rw
        (
          at,
          through,
          get_or_create_known name db c known,
          stamped,
          le→leb store.now row.modified late,
        )
        refl
