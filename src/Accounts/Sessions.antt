-- ===== src/Accounts/Sessions.antt =====
-- auth/account.py and auth/session.py: the handlers, after the credentials have been found.
pub mod Ended
use Prim.Native.String.{String}
use fxa_lite.Prelude.{
  ℕ, ◌/◌, Bool, true, false, not, Option, none, some, List, [], ◌∷◌, str_eq, is_some, ltb,
  if◌then◌else◌, get_or,
}
use fxa_lite.Exec.{Result, ok, raised, Exec, ◌>>=◌, pure, raise}
use fxa_lite.Errors.{
  Error, unknown_account, invalid_token, feature_not_enabled, missing_request_parameter,
}
use fxa_lite.Python.Strings.{given}
use fxa_lite.Accounts.Database.{
  Database, Db, Account, SessionToken, KeyFetchToken, account, account_by_email, delete_account,
  last_auth_at,
}
use fxa_lite.Accounts.Database.Tokens.{
  session_token, create_session_token, reauthenticate_session_token, delete_session_token,
  delete_key_fetch_token,
}
use fxa_lite.Accounts.Credentials.{SessionCredentials, KeyFetchCredentials}
use fxa_lite.Accounts.Passwords.{
  Server, Drawn, TokenKeys, on_db, start_session, start_key_fetch, provision, authenticate,
}

-- What a sign-in answers.
pub record SignedIn : Type 0 where
  pub uid : String
  pub session : String
  pub auth_at : ℕ
  pub key_fetch : Option String

-- What a sign-in draws: the session's keys, and those of the key fetch token with its bundle.
pub record Tokens : Type 0 where
  pub session : TokenKeys
  pub key_fetch : TokenKeys
  pub bundle : String

unfoldable pub sign_in : Tokens → Bool → String → ℕ → Account → Db SignedIn
unfolding ◌>>=◌ pure start_session start_key_fetch
sign_in tokens keys user_agent now a =
    let answer : SessionToken → Option String → SignedIn = λ token key_fetch. record {
      uid = a.uid;
      session = tokens.session.token;
      auth_at = last_auth_at token;
      key_fetch = key_fetch;
    } in
    start_session tokens.session a user_agent none now >>= λ token.
    if keys
    then (start_key_fetch tokens.key_fetch a tokens.bundle now >>= λ _.
        pure (answer token (some tokens.key_fetch.token)))
    else pure (answer token none)

unfoldable pub destroy_other : SessionCredentials → Option SessionToken → Db (Unit {0})
destroy_other credentials none db = (raised (invalid_token "Invalid session token"), db)
destroy_other credentials (some target) db =
    if str_eq target.uid credentials.account.uid
    then (ok tt, delete_session_token target.token_id db)
    else (raised (invalid_token "Invalid session token"), db)

-- The second argument is the token id that `customSessionToken` derives, if there is one.
unfoldable pub session_destroy : SessionCredentials → Option String → Db (Unit {0})
unfolding destroy_other
session_destroy credentials none db = (ok tt, delete_session_token credentials.token.token_id db)
session_destroy credentials (some id) db = destroy_other credentials (session_token id db) db

-- The second token has the authentication history of the first.
unfoldable pub duplicate_of : SessionToken → TokenKeys → Option String → ℕ → SessionToken
duplicate_of original keys user_agent now = record original {
  token_id = keys.id;
  auth_key = keys.auth_key;
  last_access_time = now;
  user_agent = get_or original.user_agent user_agent;
}

unfoldable pub session_duplicate : SessionCredentials → TokenKeys → Option String → ℕ → Db SignedIn
unfolding ◌>>=◌ pure duplicate_of
session_duplicate credentials keys user_agent now =
    let duplicate = duplicate_of credentials.token keys user_agent now in
    create_session_token duplicate >>= λ _. pure (record {
      uid = duplicate.uid;
      session = keys.token;
      auth_at = last_auth_at duplicate;
      key_fetch = none;
    })

-- Hands over the bundle, once.
unfoldable pub account_keys : KeyFetchCredentials → Db String
account_keys credentials db =
    (ok credentials.token.key_bundle, delete_key_fetch_token credentials.token.token_id db)

-- `account.locale`, and whether there is a password
unfoldable pub account_status :
    Option SessionCredentials → Option String → Database → Result Error Bool
account_status (some credentials) uid db = ok true
account_status none none db = raised (missing_request_parameter "uid")
account_status none (some uid) db = ok (is_some (account uid db))

unfoldable pub account_status_check : String → Database → Bool
account_status_check email db = is_some (account_by_email email db)

-- `currentVersion`, which is v1 for every account
unfoldable pub credentials_status : String → Database → Result Error String
credentials_status email db =
    if is_some (account_by_email email db) then ok "v1" else raised (unknown_account email)

module _ (stretch : String → String → String) where
  unfoldable pub account_create :
      Bool
      → Drawn
      → Tokens
      → String
      → String
      → Option String
      → Option String
      → Bool
      → ℕ
      → Exec Error Server SignedIn
  unfolding on_db provision sign_in ◌>>=◌ raise
  account_create open_registration drawn tokens email auth_pw locale user_agent keys now =
      if open_registration
      then (on_db (provision stretch drawn email auth_pw locale now) >>= λ a.
          on_db (sign_in tokens keys (get_or "" user_agent) now a))
      else raise feature_not_enabled

  unfoldable pub account_login :
      Tokens → String → String → Option String → Bool → ℕ → ℕ → ℕ → Exec Error Server SignedIn
  unfolding on_db authenticate sign_in ◌>>=◌
  account_login tokens email auth_pw user_agent keys now at later =
      authenticate stretch email auth_pw at later >>= λ a.
      on_db (sign_in tokens keys (get_or "" user_agent) now a)

  own_account : SessionCredentials → String → Account → Exec Error Server Account
  unfolding pure raise
  own_account credentials email a =
      if str_eq a.uid credentials.account.uid then pure a else raise (unknown_account email)

  unfoldable pub account_destroy :
      SessionCredentials → String → String → ℕ → ℕ → Exec Error Server (Unit {0})
  unfolding authenticate own_account ◌>>=◌ on_db
  account_destroy credentials email auth_pw at later =
      authenticate stretch email auth_pw at later >>= own_account credentials email >>= λ a.
      on_db (λ db. (ok tt, (delete_account a.uid db).1))

  reauthenticated : Tokens → SessionCredentials → Bool → ℕ → Account → Db (ℕ × Option String)
  unfolding start_key_fetch ◌>>=◌ pure
  reauthenticated tokens credentials keys now a db =
      let fresh = reauthenticate_session_token credentials.token.token_id now db in
      if keys
      then (start_key_fetch tokens.key_fetch a tokens.bundle now >>= λ _.
            pure (now / 1000, some tokens.key_fetch.token))
          fresh
      else (ok (now / 1000, none), fresh)

  unfoldable pub session_reauth :
      Tokens
      → SessionCredentials
      → String
      → String
      → Bool
      → ℕ
      → ℕ
      → ℕ
      → Exec Error Server (ℕ × Option String)
  unfolding authenticate own_account reauthenticated ◌>>=◌ on_db
  session_reauth tokens credentials email auth_pw keys now at later =
      authenticate stretch email auth_pw at later >>= own_account credentials email >>= λ a.
      on_db (reauthenticated tokens credentials keys now a)
