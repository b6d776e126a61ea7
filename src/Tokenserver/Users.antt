-- ===== src/Tokenserver/Users.antt =====
-- db.py: the table sync_users and the statements on it.
use fxa_lite.Prelude.{
  ℕ, suc, String, Bool, not, false, Option, none, some, List, [], ◌∷◌, ◌++◌, ◌==◌, ◌&&◌, ◌||◌, ltb,
  leb, str_eq, is_some, if◌then◌else◌,
}
use fxa_lite.Exec.{Exec, ok, raised}
use fxa_lite.Table.{select, update}
use fxa_lite.Table.Order.{sort_by}

pub record SyncUser : Type 0 where
  pub uid : ℕ
  pub fxa_uid : String
  pub client_state : String
  pub generation : ℕ
  pub keys_changed_at : Option ℕ
  pub created_at : ℕ
  pub replaced_at : Option ℕ

-- The table with its AUTOINCREMENT counter, and the uids of the accounts that exist.
pub record Users : Type 0 where
  pub rows : List SyncUser
  pub next_uid : ℕ
  pub accounts : List String

-- `ORDER BY generation DESC, created_at DESC, uid DESC`
unfoldable pub first_user : SyncUser → SyncUser → Bool
first_user a b =
    ltb b.generation a.generation
    || (a.generation == b.generation
        && (ltb b.created_at a.created_at || (a.created_at == b.created_at && leb b.uid a.uid)))

unfoldable pub sync_users : String → Users → List SyncUser
sync_users fxa_uid db = sort_by first_user (select (λ r. str_eq r.fxa_uid fxa_uid) db.rows)

unfoldable pub account_exists : String → List String → Bool
account_exists fxa_uid [] = false
account_exists fxa_uid (a ∷ accounts) = str_eq a fxa_uid || account_exists fxa_uid accounts

-- what the INSERT adds; the id is the next of the counter
unfoldable pub new_user : String → String → ℕ → Option ℕ → ℕ → Users → SyncUser
new_user fxa_uid client_state generation keys_changed_at created_at db = record {
  uid = db.next_uid;
  fxa_uid = fxa_uid;
  client_state = client_state;
  generation = generation;
  keys_changed_at = keys_changed_at;
  created_at = created_at;
  replaced_at = none;
}

-- tokenserver/errors.py, as far as `token` raises them past the headers; the last is the exception
-- that sqlite3 raises where a row would refer to no account.
pub data Refused : Type 0 where
  invalid_credentials invalid_keys_changed_at invalid_generation : Refused
  empty_client_state stale_client_state no_generation_change no_keys_changed_at_change : Refused
  integrity_error : Refused

-- The table with a row more.
unfoldable pub with_user : SyncUser → Users → Users
with_user user db = record db { rows = db.rows ++ (user ∷ []); next_uid = suc db.next_uid }

unfoldable pub create_sync_user : SyncUser → Exec Refused Users (Unit {0})
unfolding with_user
create_sync_user user db =
    if account_exists user.fxa_uid db.accounts
    then (ok tt, with_user user db)
    else (raised integrity_error, db)

unfoldable pub update_sync_user : ℕ → ℕ → Option ℕ → Users → Users
update_sync_user uid generation keys_changed_at db = record db {
  rows =
      update (λ r. r.uid == uid)
        (λ r. record r { generation = generation; keys_changed_at = keys_changed_at }) db.rows;
}

abbrev pub retired_at : ℕ → SyncUser → SyncUser
retired_at at r = record r { replaced_at = some at }

-- `replaced_at IS NULL`
abbrev pub is_live : SyncUser → Bool
is_live r = not (is_some r.replaced_at)

unfoldable pub replace_sync_user : ℕ → ℕ → Users → Users
replace_sync_user uid at db = record db {
  rows = update (λ r. r.uid == uid && is_live r) (retired_at at) db.rows;
}

abbrev pub is_superseded : String → ℕ → SyncUser → Bool
is_superseded fxa_uid keep r = str_eq r.fxa_uid fxa_uid && not (r.uid == keep) && is_live r

unfoldable pub replace_other_sync_users : String → ℕ → ℕ → Users → Users
replace_other_sync_users fxa_uid keep at db = record db {
  rows = update (is_superseded fxa_uid keep) (retired_at at) db.rows;
}
