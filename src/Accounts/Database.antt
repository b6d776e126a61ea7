-- ===== src/Accounts/Database.antt =====
-- db.py: the accounts tables and the statements on them. A row that breaks a key, an index or a
-- reference raises sqlite3's IntegrityError; a deleted account or session takes the rows that refer
-- to it along.
pub mod Tokens
pub mod Devices
use Prim.Native.String.{String}
use fxa_lite.Prelude.{
  ℕ, ◌/◌, Bool, true, false, not, ◌&&◌, ◌||◌, Option, none, some, List, [], ◌∷◌, ◌++◌, str_eq, ltb,
  leb, is_some, if◌then◌else◌,
}
use fxa_lite.Exec.{Result, ok, raised, Exec}
use fxa_lite.Errors.{Error, account_exists, integrity_error}
use fxa_lite.Python.Strings.{lower, strip}
use fxa_lite.Table.{select, fetch_one, delete, update, upsert}
use fxa_lite.Table.Order.{sort_by}
use fxa_lite.Tokenserver.Users.{SyncUser}

pub record Account : Type 0 where
  pub uid : String
  pub email : String
  pub normalized_email : String
  pub email_code : String
  pub ka : String
  pub wrap_wrap_kb : String
  pub auth_salt : String
  pub verify_hash : String
  pub verifier_version : ℕ
  pub verifier_set_at : ℕ
  pub created_at : ℕ
  pub keys_changed_at : ℕ
  pub profile_changed_at : ℕ
  pub locale : Option String

pub record SessionToken : Type 0 where
  pub token_id : String
  pub uid : String
  pub auth_key : String
  pub created_at : ℕ
  pub auth_at : ℕ
  pub last_access_time : ℕ
  pub user_agent : String

pub record KeyFetchToken : Type 0 where
  pub token_id : String
  pub uid : String
  pub auth_key : String
  pub key_bundle : String
  pub created_at : ℕ

pub record OauthCode : Type 0 where
  pub code : String
  pub uid : String
  pub client_id : String
  pub scope : String
  pub created_at : ℕ
  pub auth_at : ℕ
  pub code_challenge : Option String
  pub code_challenge_method : Option String
  pub keys_jwe : Option String
  pub session_token_id : Option String
  pub offline : Bool

pub record RefreshToken : Type 0 where
  pub token_id : String
  pub uid : String
  pub client_id : String
  pub scope : String
  pub created_at : ℕ
  pub last_used_at : ℕ

pub record Device : Type 0 where
  pub id : String
  pub uid : String
  pub session_token_id : Option String
  pub refresh_token_id : Option String
  pub name : String
  pub type : String
  pub created_at : ℕ
  pub push_callback : String
  pub push_public_key : String
  pub push_auth_key : String
  pub push_endpoint_expired : Bool
  pub available_commands : List (String × String)

pub record Database : Type 0 where
  pub accounts : List Account
  pub session_tokens : List SessionToken
  pub key_fetch_tokens : List KeyFetchToken
  pub devices : List Device
  pub oauth_codes : List OauthCode
  pub refresh_tokens : List RefreshToken
  pub sync_users : List SyncUser

abbrev pub Db : Type 0 → Type 0
Db = Exec Error Database

-- `SessionToken.last_auth_at`, in seconds; 0 counts as not set
unfoldable pub last_auth_at : SessionToken → ℕ
last_auth_at t = (if ltb 0 t.auth_at then t.auth_at else t.created_at) / 1000

unfoldable pub normalize_email : String → String
normalize_email email = lower (strip email)

-- a column that is not NULL and equal
unfoldable pub is_value : String → Option String → Bool
is_value value none = false
is_value value (some v) = str_eq v value

unfoldable pub account : String → Database → Option Account
account uid db = fetch_one (λ a. str_eq a.uid uid) db.accounts

unfoldable pub account_by_email : String → Database → Option Account
unfolding normalize_email
account_by_email email db =
    fetch_one (λ a. str_eq a.normalized_email (normalize_email email)) db.accounts

unfoldable pub create_account : Account → Db (Unit {0})
create_account new db =
    if is_some (
      fetch_one (λ a. str_eq a.uid new.uid || str_eq a.normalized_email new.normalized_email)
        db.accounts)
    then (raised (account_exists new.email), db)
    else (ok tt, record db { accounts = db.accounts ++ (new ∷ []) })

unfoldable pub touch_profile : String → ℕ → Database → Database
touch_profile uid at db = record db {
  accounts = update (λ a. str_eq a.uid uid) (λ a. record a { profile_changed_at = at }) db.accounts;
}

-- Every row, the oldest first.
unfoldable pub accounts : Database → List Account
accounts db = sort_by (λ a b. leb a.created_at b.created_at) db.accounts

-- A session that is among those to be deleted.
unfoldable pub is_among : (SessionToken → Bool) → List SessionToken → Option String → Bool
is_among p rows none = false
is_among p rows (some id) = is_some (fetch_one (λ t. p t && str_eq t.token_id id) rows)

-- `DELETE FROM session_tokens`, and the devices that refer to a deleted row go with it
unfoldable pub delete_sessions : (SessionToken → Bool) → Database → Database
unfolding is_among
delete_sessions p db = record db {
  session_tokens = delete p db.session_tokens;
  devices = delete (λ d. is_among p db.session_tokens d.session_token_id) db.devices;
}

-- the rows of the other tables that refer to the account
unfoldable pub delete_rows_of : String → Database → Database
delete_rows_of uid db = record db {
  accounts = delete (λ a. str_eq a.uid uid) db.accounts;
  key_fetch_tokens = delete (λ t. str_eq t.uid uid) db.key_fetch_tokens;
  devices = delete (λ d. str_eq d.uid uid) db.devices;
  oauth_codes = delete (λ c. str_eq c.uid uid) db.oauth_codes;
  refresh_tokens = delete (λ t. str_eq t.uid uid) db.refresh_tokens;
  sync_users = delete (λ u. str_eq u.fxa_uid uid) db.sync_users;
}

-- Whether there was a row, and the tables without it and all that refers to it.
unfoldable pub delete_account : String → Database → Bool × Database
unfolding delete_sessions delete_rows_of account
delete_account uid db =
    (is_some (account uid db), delete_rows_of uid (delete_sessions (λ t. str_eq t.uid uid) db))
