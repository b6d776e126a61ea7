-- ===== src/Tests/Storage.antt =====
-- Concrete calls of a store.
use fxa_lite.Prelude.{
  min, ◌+◌, ◌*◌, ◌≤◌, ℕ, ◌≡◌, ◌≢◌, refl, ◌%◌, ◌<◌, true, false, Option, none, some, [], ◌∷◌, arith,
  length,
}
use fxa_lite.Exec.{ok}
use fxa_lite.Table.{fetch_one, row_count}
use fxa_lite.Python.Decimal.{decimal, max_str_digits}
use fxa_lite.Prelude.Int.{pos}
use fxa_lite.SyncStorage.Model.{BsoRow}
use fxa_lite.SyncStorage.Store.Reads
use fxa_lite.SyncStorage.Store.Writes
use fxa_lite.SyncStorage.Offset.{Offset, quantize, to_text, parse}
use fxa_lite.SyncStorage.Offset.Laws.{parse-to_text}
use fxa_lite.SyncStorage.BatchId.{
  encode_batch_id, decode_batch_id, decode_batch_id_bare, decode_batch_id-encode_batch_id,
}
use fxa_lite.SyncStorage.Calls.{put, wipe}
use fxa_lite.SyncStorage.Isolation.{SameRows, perform_all, perform_all-SameRows}
use fxa_lite.SyncStorage.Records.{
  row_of, merged_bso, after_put, get_bso-put_bso, get_bso-put_bso_expired, get_bso-put_bso_ne,
}
use fxa_lite.SyncStorage.Model.{Db, PostedBso, Text}
use fxa_lite.SyncStorage.Store.Batches.{is_bindable, validate_batch, append_to_batch, commit_batch}
use fxa_lite.SyncStorage.Store.Collections.{collection_id}
use fxa_lite.SyncStorage.Staging.{
  ShowsSame, append_to_batch-ShowsSame, validate_batch-delete_storage, validate_batch-commit_batch,
}
use fxa_lite.SyncStorage.Clock.{HasRoundTimes, perform_all-HasRoundTimes}
use fxa_lite.Tests.Data.{bookmarks, alice, bob, row, bookmarks-known}

-- a request every ten milliseconds, up to an instant before the next expiry
abbrev ticks : ℕ → ℕ
ticks i = min (500 + 10 * i) 8999

perform_all-SameRows_example :
    SameRows 1
      (perform_all ((bob, put "bookmarks" "a" (some "x") none none) ∷ (bob, wipe) ∷ []) bookmarks)
      bookmarks
perform_all-SameRows_example =
    perform_all-SameRows 1 ((bob, put "bookmarks" "a" (some "x") none none) ∷ (bob, wipe) ∷ [])
      bookmarks (omega arith, (omega arith, tt))

live_a : (old : BsoRow) → row_of bookmarks 1 1 "a" ≡ some old → 500 < old.expiry
unfolding fetch_one
live_a old e = ground arith

abbrev minute : Option ℕ
minute = some 60

abbrev none_left : Option ℕ
none_left = some 0

positive : minute ≢ none_left
positive e = ground arith

get_bso-put_bso_example :
    ((Writes.put_bso alice "bookmarks" "a" (some "x") none (some 60) none true bookmarks).0
      ≡ ok 500)
    × (Reads.get_bso alice "bookmarks" "a"
          (after_put alice "bookmarks" "a" (some "x") none (some 60) 1 bookmarks bookmarks-known)
        ≡ ok (
            some (record {
              id = "a";
              modified = 500;
              payload = "x";
              sortindex = (row "a" 100 100000).sortindex;
              expiry = 60500;
            })))
unfolding merged_bso fetch_one
get_bso-put_bso_example =
    get_bso-put_bso alice "bookmarks" "a" (some "x") none (some 60) 1 bookmarks bookmarks-known
      live_a positive

get_bso-put_bso_expired_example :
    ((Writes.put_bso alice "bookmarks" "d" (some "x") none none none true bookmarks).0 ≡ ok 500)
    × (Reads.get_bso alice "bookmarks" "d"
          (after_put alice "bookmarks" "d" (some "x") none none 1 bookmarks bookmarks-known)
        ≡ ok none)
unfolding fetch_one row_count
get_bso-put_bso_expired_example =
    get_bso-put_bso_expired alice "bookmarks" "d" (some "x") none none 1 bookmarks bookmarks-known
      (row "d" 300 400) refl (omega arith) refl (omega arith)

get_bso-put_bso_ne_example :
    Reads.get_bso alice "bookmarks" "b"
      (after_put alice "bookmarks" "a" (some "x") none none 1 bookmarks bookmarks-known)
    ≡ Reads.get_bso alice "bookmarks" "b" bookmarks
get_bso-put_bso_ne_example =
    get_bso-put_bso_ne alice "bookmarks" "a" (some "x") none none 1 bookmarks bookmarks-known
      "bookmarks" "b" 1 bookmarks-known refl

forty_two-short : length (decimal 42) ≤ max_str_digits
unfolding decimal
forty_two-short = omega arith

four_hundred : length (decimal 400) ≤ max_str_digits
unfolding decimal
four_hundred = omega arith

decode_batch_id-encode_batch_id_example : decode_batch_id (encode_batch_id 42) ≡ ok (pos 42)
decode_batch_id-encode_batch_id_example = decode_batch_id-encode_batch_id 42 forty_two-short

forty_two : length (decimal 42) % 4 ≢ 0
unfolding decimal
forty_two e = omega arith

decode_batch_id_bare_example : decode_batch_id (decimal 42) ≡ ok (pos 42)
decode_batch_id_bare_example = decode_batch_id_bare 42 forty_two forty_two-short

abbrev resumed : Offset
resumed = record { timestamp = some 1237; offset = 3 }

resumed-short : length (to_text resumed) ≤ max_str_digits
unfolding to_text decimal
resumed-short = omega arith

parse-to_text_example :
    parse (to_text resumed) ≡ some (record { timestamp = some (quantize 1237); offset = 3 })
parse-to_text_example = parse-to_text resumed resumed-short

abbrev uploading : Db
uploading = record bookmarks {
  batches = record { uid = 1; batch_id = pos 400; collection_id = 1 } ∷ [];
  batch_items =
      record {
        uid = 1;
        batch_id = pos 400;
        id = "a";
        sortindex = none;
        payload = some "y";
        ttl_offset = none;
      }
      ∷ [];
}

abbrev upload : Text
upload = encode_batch_id 400

abbrev one_more : PostedBso
one_more = record { id = "e"; payload = some "z"; sortindex = none; ttl = none }

append_to_batch-ShowsSame_example :
    ShowsSame (append_to_batch alice "bookmarks" upload (one_more ∷ []) uploading).1 uploading
append_to_batch-ShowsSame_example =
    append_to_batch-ShowsSame alice "bookmarks" upload (one_more ∷ []) uploading

bindable : is_bindable (pos 400) ≡ true
unfolding is_bindable
bindable = refl

validate_batch-delete_storage_example :
    validate_batch alice "bookmarks" upload (Writes.delete_storage alice uploading).1 ≡ ok false
validate_batch-delete_storage_example =
    validate_batch-delete_storage alice "bookmarks" upload (pos 400) uploading
      (decode_batch_id-encode_batch_id 400 four_hundred) bindable

uploading-known : collection_id "bookmarks" uploading ≡ ok 1
unfolding collection_id
uploading-known = refl

validate_batch-commit_batch_example :
    ((commit_batch alice "bookmarks" upload uploading).0 ≡ ok 500)
    × (validate_batch alice "bookmarks" upload (commit_batch alice "bookmarks" upload uploading).1
        ≡ ok false)
validate_batch-commit_batch_example =
    validate_batch-commit_batch alice "bookmarks" upload (pos 400) 1 uploading
      (decode_batch_id-encode_batch_id 400 four_hundred) bindable uploading-known

perform_all-HasRoundTimes_example :
    HasRoundTimes
      (perform_all ((alice, put "bookmarks" "a" (some "x") none none) ∷ (bob, wipe) ∷ []) bookmarks)
perform_all-HasRoundTimes_example =
    perform_all-HasRoundTimes ((alice, put "bookmarks" "a" (some "x") none none) ∷ (bob, wipe) ∷ [])
      bookmarks (refl, (refl, tt)) (refl, (refl, (refl, (refl, tt))))
