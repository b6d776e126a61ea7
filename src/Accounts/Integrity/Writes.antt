-- ===== src/Accounts/Integrity/Writes.antt =====
-- No sequence of writes breaks the references between the tables.
use Prim.Native.String.{String}
use fxa_lite.Prelude.{
  refl, map, ◌++◌, ◌==◌, sym, subst, ◌≡◌, true, Bool, Option, some, none, List, [], ◌∷◌, arith, All,
  Bool-cases, inl, inr, str_eq, ◌&&◌, ltb,
}
use fxa_lite.Table.{fetch_one, delete, update, upsert}
use fxa_lite.Table.Laws.{All-delete}
use fxa_lite.Table.Kept.{All-add, All-update, All-upsert_new}
use fxa_lite.Accounts.Database.{Account, Database, Device, account}
use fxa_lite.Accounts.Database.Tokens.{
  session_token, delete_session_token, delete_key_fetch_token, delete_oauth_code,
  delete_expired_oauth_codes, touch_refresh_token, delete_refresh_token,
}
use fxa_lite.Accounts.Database.Devices.{
  device, refers, is_storable, overwrite, upsert_device, delete_device, delete_found, with_token,
}
use fxa_lite.Accounts.Integrity.Kept.{
  create_account-IsConsistent, touch_profile-IsConsistent, create_session_token-IsConsistent,
  touch_session_token-IsConsistent, reauthenticate_session_token-IsConsistent,
  delete_sessions-IsConsistent,
}
use fxa_lite.Tokenserver.Users.{
  SyncUser, account_exists, with_user, create_sync_user, update_sync_user, replace_sync_user,
  replace_other_sync_users, is_live, is_superseded, retired_at,
}
use fxa_lite.Accounts.Integrity.{
  Write, written, write_all, users_of, on_users, IsKnown, Points, IsConsistent,
}
use fxa_lite.Accounts.Integrity.Owners.{
  delete_account-IsConsistent, create_key_fetch_token-IsConsistent, create_oauth_code-IsConsistent,
  create_refresh_token-IsConsistent, key_fetches-IsConsistent, codes-IsConsistent,
  refreshes-IsConsistent,
}

devices-IsConsistent :
    (db : Database) (rows : List Device)
    → All (λ d. IsKnown db.accounts d.uid) rows
    → All (λ d. Points db.session_tokens d.session_token_id) rows
    → IsConsistent db
    → IsConsistent (record db { devices = rows })
devices-IsConsistent db rows n k h = record {
  sessions = h.sessions;
  key_fetches = h.key_fetches;
  codes = h.codes;
  refreshes = h.refreshes;
  owners = n;
  pointers = k;
  storage = h.storage;
}

delete_refresh_token-IsConsistent :
    (id : String) (db : Database) → IsConsistent db → IsConsistent (delete_refresh_token id db)
unfolding delete_refresh_token
delete_refresh_token-IsConsistent id db h =
    refreshes-IsConsistent db (delete (λ t. str_eq t.token_id id) db.refresh_tokens)
      (All-delete (λ r. IsKnown db.accounts r.uid) (λ t. str_eq t.token_id id) db.refresh_tokens
        h.refreshes)
      h

delete_session_token-IsConsistent :
    (id : String) (db : Database) → IsConsistent db → IsConsistent (delete_session_token id db)
unfolding delete_session_token
delete_session_token-IsConsistent id = delete_sessions-IsConsistent (λ t. str_eq t.token_id id)

refers-Points :
    (o : Option String) (db : Database) → refers o db ≡ true → Points db.session_tokens o
unfolding refers session_token
refers-Points none db h = tt
refers-Points (some id) db h = h

upsert_device-IsConsistent :
    (new : Device) (db : Database) → IsConsistent db → IsConsistent (upsert_device new db).1
unfolding upsert_device is_storable overwrite account
upsert_device-IsConsistent new db h =
    let same : Device → Bool = λ d. str_eq d.id new.id in
    elim (Bool-cases (is_storable new db)) [
      | inl e ↦
          let pointer = refers-Points new.session_token_id db (ground arith) in
          rw e (
            devices-IsConsistent db (upsert same (overwrite new) new db.devices)
              (All-upsert_new (λ d. IsKnown db.accounts d.uid) same (overwrite new) new db.devices
                (λ k. ground arith) (λ d k. k) h.owners)
              (All-upsert_new (λ d. Points db.session_tokens d.session_token_id) same
                (overwrite new) new db.devices (λ k. pointer) (λ d k. pointer) h.pointers)
              h)
      | inr e ↦ rw e h
    ]

with_token-IsConsistent :
    (statement : String → Database → Database) (o : Option String) (db : Database)
    → ((id : String) → IsConsistent (statement id db))
    → IsConsistent db
    → IsConsistent (with_token statement o db)
unfolding with_token
with_token-IsConsistent statement none db k h = h
with_token-IsConsistent statement (some id) db k h = ground (arith, k id, h)

delete_found-IsConsistent :
    (o : Option Device) (db : Database) → IsConsistent db → IsConsistent (delete_found o db)
unfolding delete_found
delete_found-IsConsistent none db h = h
delete_found-IsConsistent (some d) db h =
    let this : Device → Bool = λ e. str_eq e.uid d.uid && str_eq e.id d.id in
    let left = record db { devices = delete this db.devices } in
    let h1 =
      devices-IsConsistent db (delete this db.devices)
        (All-delete (λ e. IsKnown db.accounts e.uid) this db.devices h.owners)
        (All-delete (λ e. Points db.session_tokens e.session_token_id) this db.devices h.pointers)
        h in
    let h2 =
      with_token-IsConsistent delete_session_token d.session_token_id left
        (λ id. delete_session_token-IsConsistent id left h1) h1 in
    let lefter = with_token delete_session_token d.session_token_id left in
    with_token-IsConsistent delete_refresh_token d.refresh_token_id lefter
      (λ id. delete_refresh_token-IsConsistent id lefter h2) h2

users-IsConsistent :
    (db : Database) (rows : List SyncUser)
    → All (λ u. IsKnown db.accounts u.fxa_uid) rows
    → IsConsistent db
    → IsConsistent (record db { sync_users = rows })
users-IsConsistent db rows k h = record {
  sessions = h.sessions;
  key_fetches = h.key_fetches;
  codes = h.codes;
  refreshes = h.refreshes;
  owners = h.owners;
  pointers = h.pointers;
  storage = k;
}

account_exists-IsKnown :
    (uid : String) (accounts : List Account)
    → account_exists uid (map (λ a. a.uid) accounts) ≡ true
    → IsKnown accounts uid
unfolding account_exists fetch_one
account_exists-IsKnown uid [] h = ground arith
account_exists-IsKnown uid (a ∷ accounts) h = ground (arith, account_exists-IsKnown uid accounts)

create_sync_user-IsConsistent :
    (new : SyncUser) (db : Database)
    → IsConsistent db
    → IsConsistent (on_users (λ users. (create_sync_user new users).1) db)
unfolding on_users users_of create_sync_user with_user
create_sync_user-IsConsistent new db h =
    elim (Bool-cases (account_exists new.fxa_uid (map (λ a. a.uid) db.accounts))) [
      | inl e ↦ rw e (
          users-IsConsistent db (db.sync_users ++ (new ∷ []))
            (All-add (λ u. IsKnown db.accounts u.fxa_uid) db.sync_users new h.storage
              (account_exists-IsKnown new.fxa_uid db.accounts e))
            h)
      | inr e ↦ rw e h
    ]

updated_users-IsConsistent :
    (p : SyncUser → Bool) (f : SyncUser → SyncUser) (db : Database)
    → ((u : SyncUser) → (f u).fxa_uid ≡ u.fxa_uid)
    → IsConsistent db
    → IsConsistent (record db { sync_users = update p f db.sync_users })
updated_users-IsConsistent p f db same h =
    users-IsConsistent db (update p f db.sync_users)
      (All-update (λ u. IsKnown db.accounts u.fxa_uid) p f db.sync_users
        (λ u k. subst (IsKnown db.accounts) (sym (same u)) k) h.storage)
      h

written-IsConsistent : (w : Write) (db : Database) → IsConsistent db → IsConsistent (written w db)
unfolding written delete_key_fetch_token delete_oauth_code delete_expired_oauth_codes
    touch_refresh_token delete_device on_users users_of update_sync_user replace_sync_user
    replace_other_sync_users
written-IsConsistent (Write.new_account a) db h = create_account-IsConsistent a db h
written-IsConsistent (Write.profile_change uid at) db h = touch_profile-IsConsistent uid at db h
written-IsConsistent (Write.account_removal uid) db h = delete_account-IsConsistent uid db h
written-IsConsistent (Write.new_session t) db h = create_session_token-IsConsistent t db h
written-IsConsistent (Write.session_touch id at) db h = touch_session_token-IsConsistent id at db h
written-IsConsistent (Write.session_reauthentication id at) db h =
    reauthenticate_session_token-IsConsistent id at db h
written-IsConsistent (Write.session_removal id) db h = delete_session_token-IsConsistent id db h
written-IsConsistent (Write.new_key_fetch t) db h = create_key_fetch_token-IsConsistent t db h
written-IsConsistent (Write.key_fetch_removal id) db h =
    key_fetches-IsConsistent db (delete (λ t. str_eq t.token_id id) db.key_fetch_tokens)
      (All-delete (λ r. IsKnown db.accounts r.uid) (λ t. str_eq t.token_id id) db.key_fetch_tokens
        h.key_fetches)
      h
written-IsConsistent (Write.new_code c) db h = create_oauth_code-IsConsistent c db h
written-IsConsistent (Write.code_removal id) db h =
    codes-IsConsistent db (delete (λ c. str_eq c.code id) db.oauth_codes)
      (All-delete (λ r. IsKnown db.accounts r.uid) (λ c. str_eq c.code id) db.oauth_codes h.codes) h
written-IsConsistent (Write.expired_codes before) db h =
    codes-IsConsistent db (delete (λ c. ltb c.created_at before) db.oauth_codes)
      (All-delete (λ r. IsKnown db.accounts r.uid) (λ c. ltb c.created_at before) db.oauth_codes
        h.codes)
      h
written-IsConsistent (Write.new_refresh t) db h = create_refresh_token-IsConsistent t db h
written-IsConsistent (Write.refresh_touch id at) db h =
    refreshes-IsConsistent db
      (update (λ t. str_eq t.token_id id) (λ t. record t { last_used_at = at }) db.refresh_tokens)
      (All-update (λ r. IsKnown db.accounts r.uid) (λ t. str_eq t.token_id id)
        (λ t. record t { last_used_at = at }) db.refresh_tokens (λ t k. k) h.refreshes)
      h
written-IsConsistent (Write.refresh_removal id) db h = delete_refresh_token-IsConsistent id db h
written-IsConsistent (Write.device_write d) db h = upsert_device-IsConsistent d db h
written-IsConsistent (Write.device_removal uid id) db h =
    delete_found-IsConsistent (device uid id db) db h
written-IsConsistent (Write.new_sync_user u) db h = create_sync_user-IsConsistent u db h
written-IsConsistent (Write.sync_user_change uid generation keys_changed_at) db h =
    updated_users-IsConsistent (λ r. r.uid == uid)
      (λ r. record r { generation = generation; keys_changed_at = keys_changed_at }) db (λ u. refl)
      h
written-IsConsistent (Write.sync_user_replacement uid at) db h =
    updated_users-IsConsistent (λ r. r.uid == uid && is_live r) (retired_at at) db (λ u. refl) h
written-IsConsistent (Write.other_replacements fxa_uid keep at) db h =
    updated_users-IsConsistent (is_superseded fxa_uid keep) (retired_at at) db (λ u. refl) h

-- Whatever methods of the database are called on these tables, those on the sync users included, in
-- whatever order, and whether they raise or not: where it was so before, every session, key fetch
-- token, code, refresh token, device and sync user belongs to an account that exists, and every
-- device that names a session names one that exists.
pub write_all-IsConsistent :
    (ws : List Write) (db : Database) → IsConsistent db → IsConsistent (write_all ws db)
unfolding write_all
write_all-IsConsistent [] db h = h
write_all-IsConsistent (w ∷ ws) db h =
    write_all-IsConsistent ws (written w db) (written-IsConsistent w db h)
