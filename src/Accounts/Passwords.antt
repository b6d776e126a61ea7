-- ===== src/Accounts/Passwords.antt =====
-- accounts.py: provisioning, the password check, and the tokens of a signed-in account. `stretch`
-- is the verify hash that crypto/onepw.py makes of a stretched password and a salt; the random
-- texts that a call draws are its arguments, and `at` and `later` moments of the throttle's clock.
pub mod Checked
use Prim.Native.String.{String}
use fxa_lite.Prelude.{ℕ, Option, none, some, List, [], ◌∷◌, str_eq, if◌then◌else◌, get_or}
use fxa_lite.Exec.{Result, ok, raised, Exec, ◌>>=◌, pure}
use fxa_lite.Errors.{Error, unknown_account, incorrect_password, too_many_requests}
use fxa_lite.Python.Strings.{strip}
use fxa_lite.Throttle.Model.{Throttle, TooManyRequests, check, record_failure, record_success}
use fxa_lite.Accounts.Database.{
  Database, Db, Account, SessionToken, KeyFetchToken, normalize_email, account_by_email,
  create_account,
}
use fxa_lite.Accounts.Database.Tokens.{create_session_token, create_key_fetch_token}

-- The database and the throttle of the application.
pub record Server : Type 0 where
  pub db : Database
  pub throttle : Throttle

-- A statement on the database of the server.
unfoldable pub on_db : {A : Type 0} → Db A → Exec Error Server A
on_db m s = ((m s.db).0, record s { db = (m s.db).1 })

-- The random texts of a new account.
pub record Drawn : Type 0 where
  pub uid : String
  pub email_code : String
  pub ka : String
  pub wrap_wrap_kb : String
  pub auth_salt : String

-- Token id and MAC key, as hkdf derives them from a random token.
pub record TokenKeys : Type 0 where
  pub token : String
  pub id : String
  pub auth_key : String

unfoldable pub start_session : TokenKeys → Account → String → Option ℕ → ℕ → Db SessionToken
unfolding ◌>>=◌ pure
start_session keys account user_agent auth_at now =
    let token : SessionToken = record {
      token_id = keys.id;
      uid = account.uid;
      auth_key = keys.auth_key;
      created_at = now;
      auth_at = get_or now auth_at;
      last_access_time = now;
      user_agent = user_agent;
    } in
    create_session_token token >>= λ _. pure token

-- `bundle` is what tokens.py seals kA and wrapKb into.
unfoldable pub start_key_fetch : TokenKeys → Account → String → ℕ → Db (Unit {0})
start_key_fetch keys account bundle now = create_key_fetch_token (record {
  token_id = keys.id;
  uid = account.uid;
  auth_key = keys.auth_key;
  key_bundle = bundle;
  created_at = now;
})

module _ (stretch : String → String → String) where
  unfoldable pub provisioned : Drawn → String → String → Option String → ℕ → Account
  provisioned drawn email auth_pw locale now = record {
    uid = drawn.uid;
    email = strip email;
    normalized_email = normalize_email email;
    email_code = drawn.email_code;
    ka = drawn.ka;
    wrap_wrap_kb = drawn.wrap_wrap_kb;
    auth_salt = drawn.auth_salt;
    verify_hash = stretch auth_pw drawn.auth_salt;
    verifier_version = 1;
    verifier_set_at = now;
    created_at = now;
    keys_changed_at = now;
    profile_changed_at = now;
    locale = locale;
  }

  unfoldable pub provision : Drawn → String → String → Option String → ℕ → Db Account
  unfolding provisioned ◌>>=◌ pure
  provision drawn email auth_pw locale now =
      let new = provisioned drawn email auth_pw locale now in create_account new >>= λ _. pure new

  -- The hash, after the throttle has let the account in.
  unfoldable pub compared :
      String → String → ℕ → Account → Result TooManyRequests Unit → Exec Error Server Account
  compared email auth_pw later a (raised (TooManyRequests.too_many_requests wait)) s =
      (raised (too_many_requests wait), s)
  compared email auth_pw later a (ok _) s =
      let key = normalize_email email in
      if str_eq (stretch auth_pw a.auth_salt) a.verify_hash
      then (ok a, record s { throttle = record_success key s.throttle })
      else (
        raised (incorrect_password a.email (strip email)),
        record s { throttle = record_failure key later s.throttle },
      )

  unfoldable pub check_known : String → String → ℕ → ℕ → Option Account → Exec Error Server Account
  unfolding compared
  check_known email auth_pw at later none s = (raised (unknown_account email), s)
  check_known email auth_pw at later (some a) s =
      let (answer, t) = check (normalize_email email) at s.throttle in
      compared email auth_pw later a answer (record s { throttle = t })

  unfoldable pub authenticate : String → String → ℕ → ℕ → Exec Error Server Account
  unfolding check_known
  authenticate email auth_pw at later s =
      check_known email auth_pw at later (account_by_email email s.db) s
