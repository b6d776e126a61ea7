-- ===== src/SyncStorage/Store/Batches.antt =====
-- store.py: uploads that are staged over several requests and land at one instant.
use fxa_lite.Prelude.{
  ℕ, zero, suc, ◌+◌, ◌*◌, ◌^◌, leb, String, Bool, false, none, some, List, [], ◌∷◌, ◌==◌, ◌&&◌, ltb,
  if◌then◌else◌, coalesce, get_or, is_some,
}
use fxa_lite.Prelude.Int.{ℤ, pos, pos_part, neg_part}
use fxa_lite.Exec.{ok, raised, pure, reads, modify, ◌>>=◌, ◌>>◌}
use fxa_lite.Table.{select, fetch_one, delete, upsert}
use fxa_lite.Table.Order.{sort_by}
use fxa_lite.SyncStorage.Model.{
  Text, BsoRow, BatchItem, Db, Result, Action, SyncStore, PostedBso, conflict_error,
  batch_not_found, overflow_error, at_bso, at_batch, in_batch, at_item,
}
use fxa_lite.SyncStorage.BatchId.{encode_batch_id, decode_batch_id}
use fxa_lite.SyncStorage.Store.Collections.{collection_id, get_or_create_collection_id}
use fxa_lite.SyncStorage.Store.Reads.{codes, text_leb}
use fxa_lite.SyncStorage.Store.Writes.{update_collection}

abbrev pub max_ttl : ℕ
max_ttl = 2100000000

abbrev pub batch_lifetime_ms : ℕ
batch_lifetime_ms = 7200000

abbrev pub max_batch_create_retry : ℕ
max_batch_create_retry = 5

-- sqlite3 binds integers of 64 bits.
unfoldable pub is_bindable : ℤ → Bool
is_bindable b = ltb (pos_part b) (2 ^ 63) && leb (neg_part b) (2 ^ 63)

unfoldable pub bound_integer : ℤ → Result ℤ
unfolding is_bindable
bound_integer b = if is_bindable b then ok b else raised overflow_error

module _ (store : SyncStore) where
  -- `INSERT INTO sync_batches`; the IntegrityError is the id that is taken
  abbrev taken : ℕ → Db → Bool
  taken batch_id db = is_some (fetch_one (at_batch store.uid (pos batch_id)) db.batches)

  abbrev opened : ℕ → ℕ → Db → Db
  opened c batch_id db = record db {
    batches = record { uid = store.uid; batch_id = pos batch_id; collection_id = c } ∷ db.batches;
  }

  -- `for _ in range(MAX_BATCH_CREATE_RETRY)`
  unfoldable pub try_ids : ℕ → ℕ → ℕ → Action Text
  try_ids zero c batch_id db = (raised conflict_error, db)
  try_ids (suc tries) c batch_id db =
      let next = try_ids tries c (suc batch_id) db in
      if taken batch_id db then next else (ok (encode_batch_id batch_id), opened c batch_id db)

  unfoldable pub create_batch : String → Action Text
  unfolding try_ids
  create_batch collection = do
    c ← get_or_create_collection_id collection
    try_ids max_batch_create_retry c store.now

  -- `batch_id + BATCH_LIFETIME_MS < self.now`, over the integers
  unfoldable pub batch_expired : ℤ → Bool
  batch_expired b = ltb (pos_part b + batch_lifetime_ms) (store.now + neg_part b)

  unfoldable pub open_in : ℤ → ℕ → Db → Bool
  open_in b c db =
      is_some (fetch_one (λ r. at_batch store.uid b r && r.collection_id == c) db.batches)

  unfoldable pub open_in_result : ℤ → Db → Result ℕ → Result Bool
  unfolding is_bindable
  open_in_result b db (ok c) = if is_bindable b then ok (open_in b c db) else raised overflow_error
  open_in_result b db (raised e) = ok false

  open_if_live : String → Db → Result ℤ → Result Bool
  open_if_live collection db (raised e) = raised e
  open_if_live collection db (ok b) =
      if batch_expired b then ok false else open_in_result b db (collection_id collection db)

  unfoldable pub validate_batch : String → Text → Db → Result Bool
  unfolding open_if_live open_in_result open_in
  validate_batch collection batch db = open_if_live collection db (decode_batch_id batch)

  staged_row : ℤ → PostedBso → BatchItem
  staged_row b p = record {
    uid = store.uid;
    batch_id = b;
    id = p.id;
    sortindex = p.sortindex;
    payload = p.payload;
    ttl_offset = p.ttl;
  }

  unfoldable pub restaged : PostedBso → BatchItem → BatchItem
  restaged p r = record r { sortindex = p.sortindex; payload = p.payload; ttl_offset = p.ttl }

  unfoldable pub staged : ℤ → PostedBso → Db → Db
  unfolding staged_row restaged
  staged b p db = record db {
    batch_items = upsert (at_item store.uid b p.id) (restaged p) (staged_row b p) db.batch_items;
  }

  unfoldable pub stage_each : ℤ → List PostedBso → Action Unit
  stage_each b [] = pure tt
  stage_each b (p ∷ bsos) = do modify (staged b p); stage_each b bsos

  unfoldable pub append_to_batch : String → Text → List PostedBso → Action Unit
  append_to_batch collection batch bsos = do
    valid ← reads (validate_batch collection batch)
    b ← reads (λ _. if valid then decode_batch_id batch else raised (batch_not_found batch))
    stage_each b bsos

  -- the expiry of a staged record, new or not
  unfoldable pub item_expiry : BatchItem → ℕ
  item_expiry i = elim i.ttl_offset [ none ↦ max_ttl * 1000 | some ttl ↦ store.now + ttl * 1000 ]

  unfoldable pub landed_row : ℕ → BatchItem → BsoRow
  unfolding item_expiry
  landed_row c i = record {
    uid = store.uid;
    collection_id = c;
    id = i.id;
    sortindex = i.sortindex;
    payload = get_or "" i.payload;
    modified = store.now;
    expiry = item_expiry i;
  }

  -- the assignments of the conflict branch, each a COALESCE
  unfoldable pub landed_over : BatchItem → BsoRow → BsoRow
  unfolding item_expiry
  landed_over i r = record r {
    modified = store.now;
    sortindex = coalesce i.sortindex r.sortindex;
    payload = get_or r.payload i.payload;
    expiry = if is_some i.ttl_offset then item_expiry i else r.expiry;
  }

  unfoldable pub landed : ℕ → BatchItem → Db → Db
  unfolding landed_row landed_over
  landed c i db = record db {
    bsos = upsert (at_bso store.uid c i.id) (landed_over i) (landed_row c i) db.bsos;
  }

  unfoldable pub land_each : ℕ → List BatchItem → Action Unit
  land_each c [] = pure tt
  land_each c (i ∷ items) = do modify (landed c i); land_each c items

  -- `ORDER BY id`
  unfoldable pub first_id : BatchItem → BatchItem → Bool
  unfolding text_leb
  first_id i j = text_leb (codes i.id) (codes j.id)

  unfoldable pub staged_items : ℤ → Db → List BatchItem
  staged_items b db = sort_by first_id (select (in_batch store.uid b) db.batch_items)

  unfoldable pub delete_batch : Text → Action Unit
  unfolding bound_integer
  delete_batch batch = do
    n ← reads (λ _. decode_batch_id batch)
    b ← reads (λ _. bound_integer n)
    modify (λ db. record db {
      batch_items = delete (in_batch store.uid b) db.batch_items;
      batches = delete (at_batch store.uid b) db.batches;
    })

  unfoldable pub commit_batch : String → Text → Action ℕ
  unfolding bound_integer
  commit_batch collection batch = do
    n ← reads (λ _. decode_batch_id batch)
    c ← get_or_create_collection_id collection
    b ← reads (λ _. bound_integer n)
    items ← reads (λ db. ok (staged_items b db))
    land_each c items
    update_collection store c
    delete_batch batch
    pure store.now
