-- ===== src/Tests/Devices.antt =====
-- Concrete sign-ins, key fetches, deletions and device registrations.
use fxa_lite.Accounts.Database.Devices.{device_by_session_token, upsert_device}
use fxa_lite.Accounts.Database.Tokens.{key_fetch_token, session_token}
use fxa_lite.Table.{delete, fetch_one, upsert}
use fxa_lite.Prelude.{◌≡◌, ◌≢◌, refl, true, false, none, some, List, [], ◌∷◌, length}
use fxa_lite.Exec.{ok}
use fxa_lite.Python.Strings.{given, is_in, join, lower, strip}
use fxa_lite.Throttle.Model.{check, retry_after, lookup, prune, pruned, retry_after}
use fxa_lite.Accounts.Database.{
  Database, Device, account_by_email, normalize_email, delete_account, account,
}
use fxa_lite.Accounts.Credentials.{
  KeyFetchCredentials, DeviceCredentials, Offered, key_fetch_credentials, device_credentials,
  session_credentials,
}
use fxa_lite.Accounts.Integrity.{Write, write_all, IsConsistent}
use fxa_lite.Accounts.Integrity.Writes.{write_all-IsConsistent}
use fxa_lite.Accounts.Passwords.{Server, authenticate}
use fxa_lite.Accounts.Passwords.Checked.{authenticate-ok}
use fxa_lite.Accounts.Sessions.{account_keys}
use fxa_lite.Accounts.Sessions.Ended.{account_keys-once, device_credentials-delete_account}
use fxa_lite.Accounts.Devices.{Registration, merge, device_register, current_device}
use fxa_lite.Accounts.UserAgents.{UserAgent}
use fxa_lite.Accounts.Devices.Single.{device_register-single}
use fxa_lite.Tests.People.{
  digest, stretched, alice, bob, alice_session, alice_keys, alice_phone, house,
}

house-IsConsistent : IsConsistent house
unfolding fetch_one
house-IsConsistent = record {
  sessions = (refl, tt);
  key_fetches = (refl, tt);
  codes = (refl, tt);
  refreshes = (refl, tt);
  owners = tt;
  pointers = tt;
  storage = tt;
}

abbrev changes : List Write
changes =
    Write.device_write alice_phone ∷ Write.account_removal "b1" ∷ Write.session_removal "s1" ∷ []

write_all-IsConsistent_example : IsConsistent (write_all changes house)
write_all-IsConsistent_example = write_all-IsConsistent changes house house-IsConsistent

abbrev server : Server
server = record { db = house; throttle = record { limit = 10; window = 300; failures = [] } }

let_in : (authenticate stretched "ALICE@example.com" "pw" 0 1 server).0 ≡ ok alice
unfolding authenticate account_by_email normalize_email check fetch_one lower strip retry_after
    prune pruned lookup
let_in = refl

authenticate-ok_example :
    (account_by_email "ALICE@example.com" house ≡ some alice)
    × (stretched "pw" alice.auth_salt ≡ alice.verify_hash)
    × ((check (normalize_email "ALICE@example.com") 0 server.throttle).0 ≡ ok tt)
    × ((retry_after
          (normalize_email "ALICE@example.com")
          2
          (authenticate stretched "ALICE@example.com" "pw" 0 1 server).1.throttle).0
        ≡ 0)
authenticate-ok_example =
    authenticate-ok stretched "ALICE@example.com" "pw" 0 1 2 alice server let_in

abbrev key_holder : KeyFetchCredentials
key_holder = record { token = alice_keys; account = alice }

key_holder-found : key_fetch_credentials (some "f1") house ≡ ok key_holder
unfolding key_fetch_credentials key_fetch_token fetch_one account
key_holder-found = refl

account_keys-once_example :
    key_fetch_credentials (some "f1") (account_keys key_holder house).1 ≢ ok key_holder
account_keys-once_example =
    account_keys-once (some "f1") house key_holder key_holder key_holder-found

abbrev on_session : DeviceCredentials
on_session = record { account = alice; session = some alice_session; refresh = none; client = none }

still_in :
    device_credentials digest (Offered.session_id (some "s1")) [] (delete_account "b1" house).1
    ≡ ok on_session
unfolding device_credentials delete_account session_credentials session_token fetch_one delete
still_in = refl

device_credentials-delete_account_example : on_session.account.uid ≢ bob.uid
device_credentials-delete_account_example =
    device_credentials-delete_account digest (Offered.session_id (some "s1")) [] "b1" house
      on_session still_in

abbrev agent : UserAgent
agent = record { browser = "Firefox"; browser_version = "130"; os = "Linux" }

abbrev nameless : Registration
nameless = record {
  id = none;
  name = none;
  type = none;
  push_callback = none;
  push_public_key = none;
  push_auth_key = none;
  available_commands = none;
}

abbrev first_device : Device
first_device = merge nameless none on_session agent "d7" 5000

abbrev second_device : Device
second_device =
    merge (record nameless { name = some "desk" }) (some first_device) on_session agent "d8" 6000

abbrev once : Database
once = (device_register nameless on_session agent "d7" 5000 house).1

first-ok : (device_register nameless on_session agent "d7" 5000 house).0 ≡ ok (first_device, true)
unfolding device_register merge upsert_device fetch_one current_device join is_in
    device_by_session_token strip
first-ok = refl

second-ok :
    (device_register (record nameless { name = some "desk" }) on_session agent "d8" 6000 once).0
    ≡ ok (second_device, false)
unfolding device_register merge upsert_device fetch_one upsert current_device
    device_by_session_token
second-ok = refl

device_register-single_example :
    (second_device.id ≡ first_device.id)
    × (false ≡ false)
    × (length
          (device_register
            (record nameless { name = some "desk" })
            on_session
            agent
            "d8"
            6000
            once).1.devices
        ≡ length once.devices)
unfolding given
device_register-single_example =
    device_register-single nameless (record nameless { name = some "desk" }) on_session agent agent
      "d7" "d8" 5000 6000 house first_device second_device true false refl refl refl first-ok
      second-ok
