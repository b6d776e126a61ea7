-- ===== src/Tests/Web.antt =====
-- Concrete requests.
use fxa_lite.Prelude.{◌≡◌, ◌≤◌, refl, none, some, [], arith}
use fxa_lite.Exec.{ok, raised, pure, reads, ◌>>=◌}
use fxa_lite.Table.{fetch_one}
use fxa_lite.SyncStorage.Model.{Action, SyncStore, PostedBso, bso_not_found}
use fxa_lite.SyncStorage.Store.Timestamps.{collection_timestamp}
use fxa_lite.SyncStorage.Store.Collections.{collection_id}
use fxa_lite.SyncStorage.Web.Run.{
  Response, Conditions, response, error, run, finished, inside, resolve, precondition, guard,
  handled, json, whole, instant, collection, storage, conflict, internal_error, empty,
}
use fxa_lite.SyncStorage.Web.Routes.{put_bso, get_bso, route}
use fxa_lite.SyncStorage.Web.Atomic.{run-error, run-conflict}
use fxa_lite.SyncStorage.Web.RoundTrip.{unconditional, put_bso-then-get_bso}
use fxa_lite.SyncStorage.Records.{merged_bso, after_put}
use fxa_lite.Prelude.{List, All, length, Option, ◌∷◌}
use fxa_lite.Prelude.Int.{pos}
use fxa_lite.Table.{select}
use fxa_lite.Table.Order.{sort_by, insert_by}
use fxa_lite.SyncStorage.Store.Reads.{mem, text_leb}
use fxa_lite.SyncStorage.Body.{
  Fields, string, integer, field, invalid_ttl, is_bso_id, refuse_unknown, checked_id,
  checked_payload, checked_sortindex, checked_ttl, bso_from_object, max_post_bytes,
  max_post_records, Progress, set_item, sized, sorted_out, identified, take_item, take_items, shed,
  parse_bso_bodies,
}
use fxa_lite.SyncStorage.Body.Laws.{IsPosted, total_size, parse_bso_bodies-IsPosted}
use fxa_lite.Tests.Data.{bookmarks, alice, bookmarks-known}

-- a handler that wipes the table of records, and then raises or answers
abbrev spoils : Action Response
spoils db = (raised (bso_not_found "a"), record db { bsos = [] })

abbrev answers : Action Response
answers db = (ok (json empty), db)

abbrev late : SyncStore
late = record { uid = 1; now = 300 }

abbrev if_changed : Conditions
if_changed = record { if_modified_since = some (some 300); if_unmodified_since = none }

abbrev not_modified : Response
not_modified = record (json empty) { status = 304; last_modified = some 300 }

abbrev posted : PostedBso
posted = record { id = "a"; payload = some "x"; sortindex = none; ttl = some 60 }

run-error_example : (run alice unconditional storage none spoils bookmarks).1 ≡ bookmarks
unfolding run inside resolve precondition handled guard ◌>>=◌ finished pure reads
run-error_example = run-error alice unconditional storage none spoils bookmarks internal_error refl

resolved : resolve alice (collection "bookmarks") bookmarks ≡ ok 300
unfolding resolve collection_timestamp collection_id fetch_one
resolved = refl

resolved_late : resolve late (collection "bookmarks") bookmarks ≡ ok 300
unfolding resolve collection_timestamp collection_id fetch_one
resolved_late = refl

holds : precondition if_changed 300 ≡ ok (some not_modified)
unfolding precondition
holds = refl

passes : precondition unconditional 300 ≡ ok none
unfolding precondition
passes = refl

run-conflict_example :
    run late unconditional (collection "bookmarks") (some "bookmarks") answers bookmarks
    ≡ (error conflict, bookmarks)
unfolding fetch_one
run-conflict_example =
    run-conflict late unconditional (collection "bookmarks") "bookmarks" answers bookmarks 300 1
      resolved_late passes bookmarks-known (record { uid = 1; collection_id = 1; modified = 300 })
      refl (omega arith)

put_bso-then-get_bso_example :
    (r r' : Response) × (route alice unconditional (put_bso "bookmarks" "a" posted) bookmarks ≡ (
      response r,
      after_put alice "bookmarks" "a" (some "x") none (some 60) 1 bookmarks bookmarks-known,
    ))
    × (r.body ≡ instant 500)
    × (route
          (record alice { now = 800 })
          unconditional
          (get_bso "bookmarks" "a")
          (after_put alice "bookmarks" "a" (some "x") none (some 60) 1 bookmarks bookmarks-known)
        ≡ (
          response r',
          after_put alice "bookmarks" "a" (some "x") none (some 60) 1 bookmarks bookmarks-known,
        ))
    × (r'.body
        ≡ whole
            (record { id = "a"; modified = 500; payload = "x"; sortindex = none; expiry = 60500 }))
unfolding fetch_one merged_bso
put_bso-then-get_bso_example =
    put_bso-then-get_bso alice "bookmarks" "a" posted 1 bookmarks bookmarks-known 800 (omega arith)
      (omega arith)

abbrev two_items : List (Option Fields)
two_items =
    some (("id", string "a") ∷ ("payload", string "x") ∷ ("ttl", integer (pos 60)) ∷ [])
    ∷ some (("id", string "b") ∷ ("ttl", string "soon") ∷ [])
    ∷ []

abbrev one_valid : Progress
one_valid = record {
  valid = record { id = "a"; payload = some "x"; sortindex = none; ttl = some 60 } ∷ [];
  invalid = ("b", invalid_ttl) ∷ [];
  seen = "b" ∷ "a" ∷ [];
  total_payload = 1;
}

two_items-parsed : parse_bso_bodies two_items ≡ ok one_valid
unfolding parse_bso_bodies take_items take_item identified sorted_out sized set_item shed
    bso_from_object refuse_unknown checked_id checked_payload checked_sortindex checked_ttl field
    is_bso_id mem select sort_by insert_by text_leb
two_items-parsed = refl

parse_bso_bodies-IsPosted_example :
    All IsPosted one_valid.valid
    × (length one_valid.valid ≤ max_post_records)
    × (total_size one_valid.valid ≤ max_post_bytes)
parse_bso_bodies-IsPosted_example = parse_bso_bodies-IsPosted two_items one_valid two_items-parsed
