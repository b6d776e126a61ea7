-- ===== src/Accounts/Database/Devices.antt =====
-- db.py: the statements on devices.
use Prim.Native.String.{String}
use fxa_lite.Prelude.{
  Bool, true, false, not, ◌&&◌, ◌||◌, Option, none, some, List, str_eq, leb, is_some, if◌then◌else◌,
}
use fxa_lite.Exec.{ok, raised}
use fxa_lite.Errors.{integrity_error}
use fxa_lite.Table.{select, fetch_one, delete, upsert}
use fxa_lite.Table.Order.{sort_by}
use fxa_lite.Accounts.Database.{Database, Db, Device, account, is_value}
use fxa_lite.Accounts.Database.Tokens.{session_token, delete_session_token, delete_refresh_token}

-- `ON CONFLICT(id) DO UPDATE`: the uid and the creation time stay
unfoldable pub overwrite : Device → Device → Device
overwrite new old = record new { id = old.id; uid = old.uid; created_at = old.created_at }

-- Two rows with a value that its unique index allows once.
unfoldable pub same_value : Option String → Option String → Bool
unfolding is_value
same_value none other = false
same_value (some v) other = is_value v other

unfoldable pub clashes : Device → Device → Bool
unfolding same_value
clashes new d =
    not (str_eq d.id new.id)
    && (same_value new.session_token_id d.session_token_id
        || same_value new.refresh_token_id d.refresh_token_id)

unfoldable pub refers : Option String → Database → Bool
unfolding session_token
refers none db = true
refers (some token_id) db = is_some (session_token token_id db)

-- The unique indexes and the references hold after the statement. The uid is written for a new id.
unfoldable pub is_storable : Device → Database → Bool
unfolding clashes refers account
is_storable new db =
    not (is_some (fetch_one (clashes new) db.devices))
    && (refers new.session_token_id db
        && (is_some (fetch_one (λ d. str_eq d.id new.id) db.devices)
            || is_some (account new.uid db)))

unfoldable pub upsert_device : Device → Db (Unit {0})
unfolding is_storable overwrite
upsert_device new db =
    if is_storable new db
    then (
      ok tt,
      record db { devices = upsert (λ d. str_eq d.id new.id) (overwrite new) new db.devices },
    )
    else (raised integrity_error, db)

unfoldable pub device : String → String → Database → Option Device
device uid id db = fetch_one (λ d. str_eq d.uid uid && str_eq d.id id) db.devices

unfoldable pub device_by_session_token : String → Database → Option Device
device_by_session_token token_id db =
    fetch_one (λ d. is_value token_id d.session_token_id) db.devices

unfoldable pub device_by_refresh_token : String → Database → Option Device
device_by_refresh_token token_id db =
    fetch_one (λ d. is_value token_id d.refresh_token_id) db.devices

unfoldable pub devices : String → Database → List Device
devices uid db =
    sort_by (λ a b. leb a.created_at b.created_at) (select (λ d. str_eq d.uid uid) db.devices)

-- `if token_id`, where an empty text counts as none
unfoldable pub with_token : (String → Database → Database) → Option String → Database → Database
with_token statement none db = db
with_token statement (some id) db = if str_eq id "" then db else statement id db

unfoldable pub delete_found : Option Device → Database → Database
unfolding delete_session_token delete_refresh_token with_token
delete_found none db = db
delete_found (some d) db = with_token delete_refresh_token d.refresh_token_id (
    with_token delete_session_token d.session_token_id
      (record db { devices = delete (λ e. str_eq e.uid d.uid && str_eq e.id d.id) db.devices }))

-- The device that was there, and the tables without it and its credential.
unfoldable pub delete_device : String → String → Database → Option Device × Database
unfolding device delete_found
delete_device uid id db = (device uid id db, delete_found (device uid id db) db)
