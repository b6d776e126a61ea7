-- ===== src/Accounts/Devices.antt =====
-- auth/devices.py: the device registry.
pub mod Single
use Prim.Native.String.{String}
use fxa_lite.Prelude.{
  ℕ, Bool, true, false, not, ◌&&◌, ◌||◌, Option, none, some, List, [], ◌∷◌, str_eq, is_some, ltb,
  leb, max, if◌then◌else◌, get_or, map,
}
use fxa_lite.Exec.{Result, ok, raised, Exec, ◌>>=◌, pure, raise}
use fxa_lite.Errors.{Error, unknown_device, device_session_conflict, feature_not_enabled}
use fxa_lite.Python.Strings.{◌<>◌, given, join, is_in, strip}
use fxa_lite.Oauth.Clients.{Client}
use fxa_lite.Accounts.Database.{Database, Db, Account, SessionToken, RefreshToken, Device, is_value}
use fxa_lite.Accounts.Database.Tokens.{session_token, refresh_token, touch_session_token}
use fxa_lite.Accounts.Database.Devices.{
  device, device_by_session_token, device_by_refresh_token, devices, upsert_device, delete_device,
}
use fxa_lite.Accounts.Credentials.{DeviceCredentials}
use fxa_lite.Accounts.UserAgents.{UserAgent, is_mobile, synthesize}

-- `DeviceRegistration`
pub record Registration : Type 0 where
  pub id : Option String
  pub name : Option String
  pub type : Option String
  pub push_callback : Option String
  pub push_public_key : Option String
  pub push_auth_key : Option String
  pub available_commands : Option (List (String × String))

unfoldable pub owned : Option SessionToken → Option RefreshToken → Database → Option Device
owned none none db = none
owned none (some token) db = device_by_refresh_token token.token_id db
owned (some token) refresh db = device_by_session_token token.token_id db

-- `_current_device`
unfoldable pub current_device : DeviceCredentials → Database → Option Device
unfolding owned
current_device credentials db = owned credentials.session credentials.refresh db

unfoldable pub session_id_of : Option SessionToken → Option String
session_id_of none = none
session_id_of (some token) = some token.token_id

unfoldable pub refresh_id_of : Option RefreshToken → Option String
refresh_id_of none = none
refresh_id_of (some token) = some token.token_id

-- an attribute of the current device, or its default where there is none
of_current {ℓ} : {A : Type ℓ} → A → (Device → A) → Option Device → A
of_current default attribute none = default
of_current default attribute (some d) = attribute d

-- `value if value is not None else …`
unfoldable pub pick {ℓ} : {A : Type ℓ} → Option A → A → A
pick none old = old
pick (some value) old = value

client_name : Option Client → String
client_name none = ""
client_name (some client) = client.name

or_else : String → String → String
or_else value default = if str_eq value "" then default else value

-- A new push callback, other than that of the record.
moves : Option String → Option Device → Bool
moves callback none = true
moves none (some d) = false
moves (some callback) (some d) = not (str_eq callback d.push_callback)

-- `_merge`
unfoldable pub merge :
    Registration → Option Device → DeviceCredentials → UserAgent → String → ℕ → Device
unfolding session_id_of refresh_id_of of_current pick client_name or_else moves synthesize is_mobile
    given
merge payload current credentials agent fresh now = record {
  id = get_or (of_current fresh (λ d. d.id) current) (given payload.id);
  uid = credentials.account.uid;
  session_token_id = session_id_of credentials.session;
  refresh_token_id = refresh_id_of credentials.refresh;
  name =
      or_else (pick payload.name (of_current "" (λ d. d.name) current))
        (or_else (client_name credentials.client) (synthesize agent));
  type =
      or_else (get_or (of_current "" (λ d. d.type) current) (given payload.type))
        (if is_some credentials.refresh || is_mobile agent then "mobile" else "desktop");
  created_at = of_current now (λ d. d.created_at) current;
  push_callback = pick payload.push_callback (of_current "" (λ d. d.push_callback) current);
  push_public_key = pick payload.push_public_key (of_current "" (λ d. d.push_public_key) current);
  push_auth_key = pick payload.push_auth_key (of_current "" (λ d. d.push_auth_key) current);
  push_endpoint_expired =
      if moves (given payload.push_callback) current
      then false
      else of_current false (λ d. d.push_endpoint_expired) current;
  available_commands =
      pick payload.available_commands (of_current [] (λ d. d.available_commands) current);
}

-- The record, and whether it is a new one.
unfoldable pub register :
    Registration → Option Device → DeviceCredentials → UserAgent → String → ℕ → Db (Device × Bool)
unfolding merge ◌>>=◌ pure
register payload current credentials agent fresh now =
    let new = merge payload current credentials agent fresh now in
    upsert_device new >>= λ _. pure (new, not (is_some current))

-- The record that the payload names, which must not be another than the credential's own.
conflicts : String → Option Device → Bool
conflicts id none = false
conflicts id (some d) = not (str_eq d.id id)

named :
    Registration
    → String
    → Option Device
    → Option Device
    → DeviceCredentials
    → UserAgent
    → String
    → ℕ
    → Db (Device × Bool)
unfolding register conflicts of_current raise
named payload id none existing credentials agent fresh now = raise unknown_device
named payload id (some d) existing credentials agent fresh now =
    if conflicts id existing
    then raise (device_session_conflict (of_current "" (λ e. e.id) existing))
    else register payload (some d) credentials agent fresh now

unfoldable pub register_as :
    Registration → Option String → DeviceCredentials → UserAgent → String → ℕ → Db (Device × Bool)
unfolding named register
register_as payload none credentials agent fresh now db =
    register payload (current_device credentials db) credentials agent fresh now db
register_as payload (some id) credentials agent fresh now db =
    named payload id (device credentials.account.uid id db) (current_device credentials db)
      credentials agent fresh now db

-- `POST /v1/account/device`; `fresh` is the id that a new record would get
unfoldable pub device_register :
    Registration → DeviceCredentials → UserAgent → String → ℕ → Db (Device × Bool)
unfolding register_as given
device_register payload = register_as payload (given payload.id)

refresh_seen : Option RefreshToken → Device → ℕ
refresh_seen none d = d.created_at
refresh_seen (some token) d = max d.created_at token.last_used_at

by_refresh : Option String → Device → Database → ℕ
unfolding refresh_seen
by_refresh none d db = d.created_at
by_refresh (some id) d db = refresh_seen (refresh_token id db) d

session_seen : Option SessionToken → Device → Database → ℕ
unfolding by_refresh given
session_seen none d db = by_refresh (given d.refresh_token_id) d db
session_seen (some token) d db = token.last_access_time

by_session : Option String → Device → Database → ℕ
unfolding session_seen
by_session none d db = by_refresh (given d.refresh_token_id) d db
by_session (some id) d db = session_seen (session_token id db) d db

unfoldable pub last_access_time : Database → Device → ℕ
unfolding by_session given
last_access_time db d = by_session (given d.session_token_id) d db

-- `_is_current`
unfoldable pub same_pointer : Option String → Option String → Bool
same_pointer none none = true
same_pointer none (some b) = false
same_pointer (some a) b = is_value a b

is_current : Device → DeviceCredentials → Bool
unfolding session_id_of refresh_id_of same_pointer
is_current d credentials =
    if is_some credentials.session
    then same_pointer (session_id_of credentials.session) d.session_token_id
    else same_pointer d.refresh_token_id (refresh_id_of credentials.refresh)

pub record Listed : Type 0 where
  pub device : Device
  pub is_current_device : Bool
  pub last_access_time : ℕ

-- `filterIdleDevicesTimestamp`, where 0 filters nothing
idle : Option ℕ → ℕ → Bool
idle none seen = false
idle (some cutoff) seen = ltb 0 cutoff && leb seen cutoff

listed : Option ℕ → DeviceCredentials → Database → List Device → List Listed
unfolding idle is_current last_access_time
listed cutoff credentials db [] = []
listed cutoff credentials db (d ∷ ds) =
    let seen = last_access_time db d in
    let rest = listed cutoff credentials db ds in
    if idle cutoff seen
    then rest
    else (record {
      device = d;
      is_current_device = is_current d credentials;
      last_access_time = seen;
    }
        ∷ rest)

touched : Option SessionToken → ℕ → Database → Database
touched none now db = db
touched (some token) now db = touch_session_token token.token_id now db

-- `GET /v1/account/devices`
unfoldable pub device_list : DeviceCredentials → Option ℕ → ℕ → Db (List Listed)
unfolding touched listed
device_list credentials cutoff now db =
    let seen = touched credentials.session now db in
    (ok (listed cutoff credentials seen (devices credentials.account.uid seen)), seen)

-- The queue of a known device, which is always empty.
unfoldable pub device_commands : DeviceCredentials → Database → Result Error (List String)
device_commands credentials db =
    if is_some (current_device credentials db) then ok [] else raised unknown_device

destroyed : Option Device × Database → Result Error (Unit {0}) × Database
destroyed (none, db) = (raised unknown_device, db)
destroyed (some d, db) = (ok tt, db)

-- `POST /v1/account/device/destroy`
unfoldable pub device_destroy : DeviceCredentials → String → Db (Unit {0})
unfolding destroyed
device_destroy credentials id db = destroyed (delete_device credentials.account.uid id db)

unfoldable pub devices_notify : Result Error (Unit {0})
devices_notify = raised feature_not_enabled
