-- ===== src/Accounts/Integrity.antt =====
-- The references between the tables of the accounts: what every write keeps.
pub mod Kept
pub mod Owners
pub mod Writes
use Prim.Native.String.{String}
use fxa_lite.Prelude.{ℕ, ◌≡◌, true, Option, some, none, List, [], ◌∷◌, All, is_some, str_eq, map}
use fxa_lite.Table.{fetch_one}
use fxa_lite.Accounts.Database.{
  Database, Account, SessionToken, KeyFetchToken, OauthCode, RefreshToken, Device, account,
  create_account, touch_profile, delete_account,
}
use fxa_lite.Accounts.Database.Tokens.{
  session_token, create_session_token, touch_session_token, reauthenticate_session_token,
  delete_session_token, create_key_fetch_token, delete_key_fetch_token, create_oauth_code,
  delete_oauth_code, delete_expired_oauth_codes, create_refresh_token, touch_refresh_token,
  delete_refresh_token,
}
use fxa_lite.Tokenserver.Users.{
  SyncUser, Users, create_sync_user, update_sync_user, replace_sync_user, replace_other_sync_users,
}
use fxa_lite.Accounts.Database.Devices.{refers, upsert_device, delete_device}

-- The methods on the sync users read the rows and the uids of the accounts. A new row comes with its
-- uid here, so that the counter plays no part.
unfoldable pub users_of : Database → Users
users_of db = record { rows = db.sync_users; next_uid = 0; accounts = map (λ a. a.uid) db.accounts }

unfoldable pub on_users : (Users → Users) → Database → Database
unfolding users_of
on_users statement db = record db { sync_users = (statement (users_of db)).rows }

-- A method of `Database` that writes, with its arguments.
pub data Write : Type 0 where
  new_account : Account → Write
  profile_change : String → ℕ → Write
  account_removal : String → Write
  new_session : SessionToken → Write
  session_touch session_reauthentication : String → ℕ → Write
  session_removal : String → Write
  new_key_fetch : KeyFetchToken → Write
  key_fetch_removal : String → Write
  new_code : OauthCode → Write
  code_removal : String → Write
  expired_codes : ℕ → Write
  new_refresh : RefreshToken → Write
  refresh_touch : String → ℕ → Write
  refresh_removal : String → Write
  device_write : Device → Write
  device_removal : String → String → Write
  new_sync_user : SyncUser → Write
  sync_user_change : ℕ → ℕ → Option ℕ → Write
  sync_user_replacement : ℕ → ℕ → Write
  other_replacements : String → ℕ → ℕ → Write

-- The tables after a write, whether it raises or not.
unfoldable pub written : Write → Database → Database
unfolding create_account touch_profile delete_account create_session_token touch_session_token
    reauthenticate_session_token delete_session_token create_key_fetch_token delete_key_fetch_token
    create_oauth_code delete_oauth_code delete_expired_oauth_codes create_refresh_token
    touch_refresh_token delete_refresh_token upsert_device delete_device on_users
written (new_account a) db = (create_account a db).1
written (profile_change uid at) db = touch_profile uid at db
written (account_removal uid) db = (delete_account uid db).1
written (new_session t) db = (create_session_token t db).1
written (session_touch id at) db = touch_session_token id at db
written (session_reauthentication id at) db = reauthenticate_session_token id at db
written (session_removal id) db = delete_session_token id db
written (new_key_fetch t) db = (create_key_fetch_token t db).1
written (key_fetch_removal id) db = delete_key_fetch_token id db
written (new_code c) db = (create_oauth_code c db).1
written (code_removal id) db = delete_oauth_code id db
written (expired_codes before) db = (delete_expired_oauth_codes before db).1
written (new_refresh t) db = (create_refresh_token t db).1
written (refresh_touch id at) db = touch_refresh_token id at db
written (refresh_removal id) db = delete_refresh_token id db
written (device_write d) db = (upsert_device d db).1
written (device_removal uid id) db = (delete_device uid id db).1
written (new_sync_user u) db = on_users (λ users. (create_sync_user u users).1) db
written (sync_user_change uid generation keys_changed_at) db =
    on_users (update_sync_user uid generation keys_changed_at) db
written (sync_user_replacement uid at) db = on_users (replace_sync_user uid at) db
written (other_replacements fxa_uid keep at) db =
    on_users (replace_other_sync_users fxa_uid keep at) db

unfoldable pub write_all : List Write → Database → Database
unfolding written
write_all [] db = db
write_all (w ∷ ws) db = write_all ws (written w db)

-- The uid is that of an account.
abbrev pub IsKnown : List Account → String → Type 0
IsKnown accounts uid = is_some (fetch_one (λ a. str_eq a.uid uid) accounts) ≡ true

-- The session is none, or one that exists.
abbrev pub Points : List SessionToken → Option String → Type 0
Points sessions none = Unit
Points sessions (some id) = is_some (fetch_one (λ t. str_eq t.token_id id) sessions) ≡ true

-- Every row belongs to an account, and every device that names a session names one that exists.
pub record IsConsistent (db : Database) : Type 0 where
  pub sessions : All (λ t. IsKnown db.accounts t.uid) db.session_tokens
  pub key_fetches : All (λ t. IsKnown db.accounts t.uid) db.key_fetch_tokens
  pub codes : All (λ c. IsKnown db.accounts c.uid) db.oauth_codes
  pub refreshes : All (λ t. IsKnown db.accounts t.uid) db.refresh_tokens
  pub owners : All (λ d. IsKnown db.accounts d.uid) db.devices
  pub pointers : All (λ d. Points db.session_tokens d.session_token_id) db.devices
  pub storage : All (λ u. IsKnown db.accounts u.fxa_uid) db.sync_users
