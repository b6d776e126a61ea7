-- ===== src/SyncStorage/Web/RoundTrip.antt =====
-- Whole requests one after the other, through their transactions.
use fxa_lite.Prelude.{
  ℕ, ◌<◌, String, ◌≡◌, refl, ap, sym, subst, ◌∙◌, true, false, Option, none, some, arith, leb,
}
use fxa_lite.Exec.{ok, pure, ◌>>=◌, bind-pure_of_ok}
use fxa_lite.Table.{fetch_one}
use fxa_lite.SyncStorage.Model.{Db, SyncStore, UserCollection, PostedBso, Bso, bso_of_row}
use fxa_lite.SyncStorage.Store.Collections.{collection_id, get_or_create_known}
use fxa_lite.SyncStorage.Store.Timestamps.{bso_timestamp, modified_or_zero}
use fxa_lite.SyncStorage.Store.Reads
use fxa_lite.SyncStorage.Store.Writes
use fxa_lite.SyncStorage.Store.Writes.{check_write, refuse_stale}
use fxa_lite.SyncStorage.Records.{
  row_of, merged_bso, row_after-merged_bso, put_bso_lem, after_put, known_after, row_of-after_put,
  get_bso_of_live,
}
use fxa_lite.SyncStorage.Web.Run.{
  Response, Conditions, response, resolve, precondition, guard, weave_stamped, with_last_modified,
  json, whole, instant, bso,
}
use fxa_lite.SyncStorage.Web.Handlers
use fxa_lite.SyncStorage.Web.Routes.{put_bso, get_bso, route}
use fxa_lite.SyncStorage.Web.Atomic.{stamp_of, run-through}

abbrev pub unconditional : Conditions
unconditional = record { if_modified_since = none; if_unmodified_since = none }

-- May a write at `now` move a collection with this timestamp, or with none, forward?
abbrev pub IsBehind : Option UserCollection → ℕ → Type 0
IsBehind none now = Unit
IsBehind (some row) now = row.modified < now

abbrev pub CanAdvance : SyncStore → ℕ → Db → Type 0
CanAdvance store c db = IsBehind (stamp_of db store.uid c) store.now

refuse_stale-IsBehind :
    (store : SyncStore) (stamp : Option UserCollection) (db : Db)
    → IsBehind stamp store.now
    → refuse_stale store stamp db ≡ (ok tt, db)
unfolding refuse_stale pure
refuse_stale-IsBehind store none db h = refl
refuse_stale-IsBehind store (some row) db h =
    let early : leb store.now row.modified ≡ false = ground arith in rw early

check_write-CanAdvance :
    (store : SyncStore) (c : ℕ) (db : Db)
    → CanAdvance store c db
    → check_write store c db ≡ (ok tt, db)
unfolding check_write
check_write-CanAdvance store c db h = refuse_stale-IsBehind store (stamp_of db store.uid c) db h

unconditional_lem : (t : ℕ) → precondition unconditional t ≡ ok none
unfolding precondition
unconditional_lem t = refl

module _ (store : SyncStore) (name id : String) (c : ℕ) (db : Db)
    (known : collection_id name db ≡ ok c) where
  resolve_bso : (t : ℕ) × (resolve store (bso name id) db ≡ ok t)
  unfolding resolve bso_timestamp
  resolve_bso = (modified_or_zero (row_of db store.uid c id), rw known refl)

  -- A GET of a record that can be read answers it, and changes nothing.
  route-get_bso :
      (b : Bso)
      → Reads.get_bso store name id db ≡ ok (some b)
      → (r : Response) × (route store unconditional (get_bso name id) db ≡ (response r, db))
        × (r.body ≡ whole b)
  unfolding route
  route-get_bso b found =
      let (t, at) = resolve_bso in
      (
        weave_stamped store.now (with_last_modified t (json (whole b))),
        run-through store unconditional (bso name id) none (Handlers.get_bso store name id) db t db
            (json (whole b)) at (unconditional_lem t) (unfold guard pure in refl) answered,
        unfold weave_stamped with_last_modified in refl,
      )
    where
      answered : Handlers.get_bso store name id db ≡ (ok (json (whole b)), db)
      answered = unfold Handlers.get_bso ◌>>=◌ in rw found refl

module _ (store : SyncStore) (name id : String) (body : PostedBso) (c : ℕ) (db : Db)
    (known : collection_id name db ≡ ok c) where
  abbrev put_tables : Db
  put_tables = after_put store name id body.payload body.sortindex body.ttl c db known

  guard-CanAdvance : CanAdvance store c db → guard store (some name) db ≡ (ok tt, db)
  unfolding guard ◌>>=◌
  guard-CanAdvance h =
      rw (get_or_create_known name db c known) (check_write-CanAdvance store c db h)

  handler_lem :
      Handlers.put_bso store name id body db
      ≡ (ok (record (json (instant store.now)) { last_modified = some store.now }), put_tables)
  unfolding Handlers.put_bso
  handler_lem =
      bind-pure_of_ok (Writes.put_bso store name id body.payload body.sortindex body.ttl none true)
        (λ modified. record (json (instant modified)) { last_modified = some modified }) db
        store.now
        (ap (λ t. t.0) (put_bso_lem store name id body.payload body.sortindex body.ttl c db known))

  route-put_bso :
      CanAdvance store c db
      → (r : Response) × (route store unconditional (put_bso name id body) db
          ≡ (response r, put_tables))
        × (r.status ≡ 200)
        × (r.body ≡ instant store.now)
        × (r.last_modified ≡ some store.now)
  unfolding route
  route-put_bso h =
      let (t, at) = resolve_bso store name id c db known in
      (
        weave_stamped store.now (
            with_last_modified t
              (record (json (instant store.now)) { last_modified = some store.now })),
        run-through store unconditional (bso name id) (some name)
            (Handlers.put_bso store name id body) db t put_tables
            (record (json (instant store.now)) { last_modified = some store.now }) at
            (unconditional_lem t) (guard-CanAdvance h) handler_lem,
        unfold weave_stamped with_last_modified in refl,
        unfold weave_stamped with_last_modified in refl,
        unfold weave_stamped with_last_modified in refl,
      )

  -- An unconditional PUT into a collection that exists and may move forward answers the instant of
  -- the request, and an unconditional GET by the same user, at an instant before the record
  -- expires, answers the record with the fields that were sent, and the others as they were or the
  -- defaults of a new record, and changes nothing.
  pub put_bso-then-get_bso :
      (now' : ℕ)
      → CanAdvance store c db
      → now'
        < (merged_bso store.now id body.payload body.sortindex body.ttl
            (row_of db store.uid c id)).expiry
      → (r r' : Response) × (route store unconditional (put_bso name id body) db
          ≡ (response r, put_tables))
        × (r.body ≡ instant store.now)
        × (route (record store { now = now' }) unconditional (get_bso name id) put_tables
            ≡ (response r', put_tables))
        × (r'.body
            ≡ whole (
                merged_bso store.now id body.payload body.sortindex body.ttl
                  (row_of db store.uid c id)))
  unfolding fetch_one bso_of_row
  put_bso-then-get_bso now' h live =
      let put = route-put_bso h in
      let merged = row_after-merged_bso store body.payload body.sortindex body.ttl c id db in
      let later : SyncStore = record store { now = now' } in
      let tables = put_tables in
      let known' = known_after store name id body.payload body.sortindex body.ttl c db known in
      let got = route-get_bso later name id c tables known' _ (
        get_bso_of_live later name id body.payload body.sortindex body.ttl c db known tables known'
          (row_of-after_put store name id body.payload body.sortindex body.ttl c db known)
          (subst (λ (b : Bso). now' < b.expiry) (sym merged) live)) in
      (put.0, got.0, put.1, put.3, got.1, got.2 ∙ ap whole merged)
