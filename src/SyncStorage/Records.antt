-- ===== src/SyncStorage/Records.antt =====
-- What a write leaves for the later reads of single records (store.py `put_bso`, `get_bso`).
use fxa_lite.Prelude.{
  ℕ, zero, suc, ◌+◌, ◌*◌, ◌≤◌, ◌<◌, String, ◌≡◌, ◌≢◌, refl, sym, ap, ◌∙◌, subst, inl, inr, Bool,
  true, false, Option, none, some, arith, ◌==◌, ◌&&◌, Bool-cases, is_some, ltb, lt→ltb, get_or,
  str_eq, eq_iff,
}
use fxa_lite.Prelude.Int.{ℤ}
use fxa_lite.Exec.{Result, ok, modify, ◌>>=◌}
use fxa_lite.Table.{fetch_one, row_count}
use fxa_lite.Table.Laws.{
  fetch_one-upsert_self, fetch_one-upsert_ne, fetch_one-and, fetch_one-and_ne, merged,
  row_count-upsert_self, fetch_one-holds,
}
use fxa_lite.SyncStorage.Model.{BsoRow, Bso, bso_of_row, Db, Raised, SyncStore, at_bso}
use fxa_lite.SyncStorage.Store.Collections.{collection_id, get_or_create_known}
use fxa_lite.SyncStorage.Store.Reads.{get_bso}
use fxa_lite.SyncStorage.Store.Writes.{
  stamped, update_collection, expiry_of, new_row, updated_row, written, put_bso,
}

-- The record that a PUT should leave, from the fields that were sent and the row that was there: a
-- field that was sent is the new one, any other is the old one or the default of a new record. The
-- timestamp moves, unless at most a ttl was sent for a row that was there.
unfoldable pub merged_bso : ℕ → String → Option String → Option ℤ → Option ℕ → Option BsoRow → Bso
merged_bso now id payload sortindex ttl none = record {
  id = id;
  modified = now;
  payload = elim payload [ none ↦ "" | some p ↦ p ];
  sortindex = sortindex;
  expiry = elim ttl [ none ↦ now + 2100000000000 | some t ↦ now + t * 1000 ];
}
merged_bso now id payload sortindex ttl (some old) = record {
  id = id;
  modified = elim payload [
    | some p ↦ now
    | none ↦ elim sortindex [ some i ↦ now | none ↦ old.modified ]
  ];
  payload = elim payload [ none ↦ old.payload | some p ↦ p ];
  sortindex = elim sortindex [ none ↦ old.sortindex | some i ↦ some i ];
  expiry = elim ttl [ none ↦ old.expiry | some t ↦ now + t * 1000 ];
}

-- the row of a key, expired or not
abbrev pub row_of : Db → ℕ → ℕ → String → Option BsoRow
row_of db u c b = fetch_one (at_bso u c b) db.bsos

abbrev same_key : ℕ → ℕ → String → ℕ → ℕ → String → Bool
same_key u c b u' c' b' = u == u' && c == c' && str_eq b b'

str_eq_refl : (s : String) → str_eq s s ≡ true
str_eq_refl s = (eq_iff s s).1 refl

module _ (store : SyncStore) (payload : Option String) (sortindex : Option ℤ) (ttl : Option ℕ)
    (c : ℕ) (b : String) (db : Db) where
  -- the row that a write leaves at its key
  abbrev pub row_after : BsoRow
  row_after =
      merged (updated_row store payload sortindex ttl) (new_row store payload sortindex ttl c b)
        (row_of db store.uid c b)

  pub row_of-written_self :
      row_of (written store payload sortindex ttl c b db) store.uid c b ≡ some row_after
  unfolding written
  row_of-written_self =
      fetch_one-upsert_self (at_bso store.uid c b) (updated_row store payload sortindex ttl)
        (new_row store payload sortindex ttl c b) db.bsos (ground (arith, str_eq_refl b)) (λ r h. h)

  pub row_of-written_ne :
      (u' c' : ℕ) (b' : String)
      → same_key u' c' b' store.uid c b ≡ false
      → row_of (written store payload sortindex ttl c b db) u' c' b' ≡ row_of db u' c' b'
  unfolding written
  row_of-written_ne u' c' b' h =
      fetch_one-upsert_ne (at_bso store.uid c b) (at_bso u' c' b')
        (updated_row store payload sortindex ttl) (new_row store payload sortindex ttl c b)
        (ground (arith, eq_iff b b', eq_iff b' b)) db.bsos
        (λ r k.
          let no : at_bso u' c' b' r ≡ false =
            ground (arith, eq_iff r.id b, eq_iff r.id b', eq_iff b' b) in
          (no, no))

-- The row that a write leaves reads as the record that it should leave.
merged-merged_bso :
    (store : SyncStore) (payload : Option String) (sortindex : Option ℤ) (ttl : Option ℕ) (c : ℕ)
    (b : String) (o : Option BsoRow)
    → ((old : BsoRow) → o ≡ some old → old.id ≡ b)
    → bso_of_row (
        merged
          (updated_row store payload sortindex ttl)
          (new_row store payload sortindex ttl c b)
          o)
      ≡ merged_bso store.now b payload sortindex ttl o
unfolding bso_of_row updated_row new_row expiry_of merged_bso
merged-merged_bso store none sortindex none c b none same = refl
merged-merged_bso store none sortindex (some t) c b none same = refl
merged-merged_bso store (some p) sortindex none c b none same = refl
merged-merged_bso store (some p) sortindex (some t) c b none same = refl
merged-merged_bso store none none none c b (some old) same = rw (same old refl) refl
merged-merged_bso store none none (some t) c b (some old) same = rw (same old refl) refl
merged-merged_bso store none (some i) none c b (some old) same = rw (same old refl) refl
merged-merged_bso store none (some i) (some t) c b (some old) same = rw (same old refl) refl
merged-merged_bso store (some p) none none c b (some old) same = rw (same old refl) refl
merged-merged_bso store (some p) none (some t) c b (some old) same = rw (same old refl) refl
merged-merged_bso store (some p) (some i) none c b (some old) same = rw (same old refl) refl
merged-merged_bso store (some p) (some i) (some t) c b (some old) same = rw (same old refl) refl

pub row_after-merged_bso :
    (store : SyncStore) (payload : Option String) (sortindex : Option ℤ) (ttl : Option ℕ) (c : ℕ)
    (b : String) (db : Db)
    → bso_of_row (row_after store payload sortindex ttl c b db)
      ≡ merged_bso store.now b payload sortindex ttl (row_of db store.uid c b)
row_after-merged_bso store payload sortindex ttl c b db =
    merged-merged_bso store payload sortindex ttl c b (row_of db store.uid c b) (λ old found.
      let at : at_bso store.uid c b old ≡ true =
        fetch_one-holds (at_bso store.uid c b) db.bsos found in
      ground (arith, eq_iff old.id b))

module _ (store : SyncStore) (payload : Option String) (sortindex : Option ℤ) (ttl : Option ℕ) where
  expiry_of_later : ttl ≢ some 0 → store.now < expiry_of store payload sortindex ttl
  unfolding expiry_of
  expiry_of_later h = later ttl h
    where
      later : (t : Option ℕ) → t ≢ some 0 → store.now < store.now + get_or 2100000000 t * 1000
      later none k = omega arith
      later (some zero) k = absurd (k refl)
      later (some (suc n)) k = omega arith

  row_after_alive :
      (o : Option BsoRow) (new : BsoRow)
      → new.expiry ≡ expiry_of store payload sortindex ttl
      → ttl ≢ some 0
      → ((old : BsoRow) → o ≡ some old → store.now < old.expiry)
      → store.now < (merged (updated_row store payload sortindex ttl) new o).expiry
  unfolding updated_row
  row_after_alive none new e h live = rw e (expiry_of_later h)
  row_after_alive (some old) new e h live = elim (Bool-cases (is_some ttl)) [
    | inl given ↦ rw given (expiry_of_later h)
    | inr absent ↦ rw absent (live old refl)
  ]

  row_after_dead :
      (old : BsoRow) (c : ℕ) (b : String) (o : Option BsoRow)
      → o ≡ some old
      → old.expiry ≤ store.now
      → ttl ≡ none
      → (merged
          (updated_row store payload sortindex ttl)
          (new_row store payload sortindex ttl c b)
          o).expiry
        ≤ store.now
  unfolding updated_row
  row_after_dead old c b o found dead no_ttl = rw (found, no_ttl) dead

module _ (store : SyncStore) (payload : Option String) (sortindex : Option ℤ) (ttl : Option ℕ)
    (c : ℕ) (b : String) (db : Db) where
  abbrev put_tables : Db
  put_tables = stamped store c (written store payload sortindex ttl c b db)

  fetch_live-written_ne :
      (c' : ℕ) (b' : String)
      → same_key store.uid c' b' store.uid c b ≡ false
      → fetch_one (λ r. at_bso store.uid c' b' r && ltb store.now r.expiry) put_tables.bsos
        ≡ fetch_one (λ r. at_bso store.uid c' b' r && ltb store.now r.expiry) db.bsos
  unfolding stamped written
  fetch_live-written_ne c' b' h =
      fetch_one-upsert_ne (at_bso store.uid c b)
        (λ r. at_bso store.uid c' b' r && ltb store.now r.expiry)
        (updated_row store payload sortindex ttl) (new_row store payload sortindex ttl c b)
        (ground (arith, eq_iff b b', eq_iff b' b)) db.bsos
        (λ r k. (
          ground (arith, eq_iff r.id b, eq_iff r.id b', eq_iff b' b),
          ground (arith, eq_iff r.id b, eq_iff r.id b', eq_iff b' b),
        ))

  get_bso-written_ne :
      (collection' b' : String) (c' : ℕ)
      → collection_id collection' db ≡ ok c'
      → same_key store.uid c' b' store.uid c b ≡ false
      → get_bso store collection' b' put_tables ≡ get_bso store collection' b' db
  unfolding get_bso
  get_bso-written_ne collection' b' c' k h =
      let k' : collection_id collection' put_tables ≡ ok c' =
        (unfold collection_id stamped written in k) in
      rw (k', k, fetch_live-written_ne c' b' h)

module _ (store : SyncStore) (collection b : String) (payload : Option String)
    (sortindex : Option ℤ) (ttl : Option ℕ) (c : ℕ) (db : Db)
    (known : collection_id collection db ≡ ok c) where
  abbrev pub after_put : Db
  after_put = (put_bso store collection b payload sortindex ttl none true db).1

  -- A PUT into a collection that exists writes the row, stamps the collection and answers the
  -- instant of the request.
  pub put_bso_lem :
      put_bso store collection b payload sortindex ttl none true db
      ≡ (ok store.now, stamped store c (written store payload sortindex ttl c b db))
  unfolding put_bso ◌>>=◌ modify update_collection
  put_bso_lem = rw (get_or_create_known collection db c known)

  pub known_after : collection_id collection after_put ≡ ok c
  known_after =
      ap (λ t. collection_id collection t.1) put_bso_lem
      ∙ (unfold collection_id stamped written in known)

  pub row_of-after_put :
      row_of after_put store.uid c b ≡ some (row_after store payload sortindex ttl c b db)
  row_of-after_put =
      ap (λ t. row_of t.1 store.uid c b) put_bso_lem
      ∙ (unfold stamped in row_of-written_self store payload sortindex ttl c b db)

  row_count_after :
      row_count (at_bso store.uid c b) db.bsos ≤ 1
      → row_count (at_bso store.uid c b) after_put.bsos ≤ 1
  row_count_after unique =
      subst (λ (t : Result Raised ℕ × Db). row_count (at_bso store.uid c b) t.1.bsos ≤ 1)
        (sym put_bso_lem)
        (unfold stamped written in
          row_count-upsert_self (at_bso store.uid c b) (updated_row store payload sortindex ttl)
            (new_row store payload sortindex ttl c b) db.bsos (ground (arith, str_eq_refl b))
            (λ r h. h) unique)

  pub get_bso_of_live :
      (db' : Db) {r : BsoRow}
      → collection_id collection db' ≡ ok c
      → row_of db' store.uid c b ≡ some r
      → store.now < r.expiry
      → get_bso store collection b db' ≡ ok (some (bso_of_row r))
  unfolding get_bso
  get_bso_of_live db' {r} k e h = rw (
    k,
    fetch_one-and (at_bso store.uid c b) (λ x. ltb store.now x.expiry) db'.bsos e (lt→ltb _ _ h),
  )

  get_bso_of_dead :
      (db' : Db) {r : BsoRow}
      → collection_id collection db' ≡ ok c
      → row_of db' store.uid c b ≡ some r
      → r.expiry ≤ store.now
      → row_count (at_bso store.uid c b) db'.bsos ≤ 1
      → get_bso store collection b db' ≡ ok none
  unfolding get_bso
  get_bso_of_dead db' {r} k e h unique = rw (
    k,
    fetch_one-and_ne (at_bso store.uid c b) (λ x. ltb store.now x.expiry) db'.bsos e (ground arith)
        unique,
  )

  -- A record that is in the collection and not expired, or that is new, can be read back after a
  -- PUT of any fields with a ttl that is absent or positive: the fields that were sent are the
  -- new ones, the others are those of the row that was there, or the defaults of a new row, as
  -- `merged_bso` spells out.
  pub get_bso-put_bso :
      ((old : BsoRow) → row_of db store.uid c b ≡ some old → store.now < old.expiry)
      → ttl ≢ some 0
      → (put_bso store collection b payload sortindex ttl none true db).0 ≡ ok store.now
        × (get_bso store collection b after_put
            ≡ ok (some (merged_bso store.now b payload sortindex ttl (row_of db store.uid c b))))
  unfolding expiry_of new_row
  get_bso-put_bso live positive = (
    ap (λ t. t.0) put_bso_lem,
    get_bso_of_live after_put known_after row_of-after_put (
          row_after_alive store payload sortindex ttl (row_of db store.uid c b)
            (new_row store payload sortindex ttl c b) refl positive live)
        ∙ ap (λ r. ok (some r)) (row_after-merged_bso store payload sortindex ttl c b db),
  )

  -- A PUT without a ttl onto a row that has expired answers with the new timestamp like any other,
  -- and the record that it has just stored cannot be read: the row keeps its old expiry.
  pub get_bso-put_bso_expired :
      (old : BsoRow)
      → row_of db store.uid c b ≡ some old
      → old.expiry ≤ store.now
      → ttl ≡ none
      → row_count (at_bso store.uid c b) db.bsos ≤ 1
      → (put_bso store collection b payload sortindex ttl none true db).0 ≡ ok store.now
        × (get_bso store collection b after_put ≡ ok none)
  get_bso-put_bso_expired old found dead no_ttl unique = (
    ap (λ t. t.0) put_bso_lem,
    get_bso_of_dead after_put known_after row_of-after_put
        (row_after_dead store payload sortindex ttl old c b (row_of db store.uid c b) found dead
          no_ttl)
        (row_count_after unique),
  )

  -- No other record is touched by a PUT: a read of another key gives what it gave before.
  pub get_bso-put_bso_ne :
      (collection' b' : String) (c' : ℕ)
      → collection_id collection' db ≡ ok c'
      → same_key store.uid c' b' store.uid c b ≡ false
      → get_bso store collection' b' after_put ≡ get_bso store collection' b' db
  get_bso-put_bso_ne collection' b' c' k h =
      ap (λ t. get_bso store collection' b' t.1) put_bso_lem
      ∙ get_bso-written_ne store payload sortindex ttl c b db collection' b' c' k h
