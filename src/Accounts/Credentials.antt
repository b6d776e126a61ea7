-- ===== src/Accounts/Credentials.antt =====
-- auth/credentials.py: who a request comes from. `token_id` has found the id in the header, or none;
-- `sha256_hex` is the digest of the refresh token's ASCII.
use Prim.Native.String.{String}
use fxa_lite.Prelude.{Bool, true, false, Option, none, some, List, [], ◌∷◌, if◌then◌else◌}
use fxa_lite.Exec.{Result, ok, raised}
use fxa_lite.Errors.{Error, unauthorized, client_not_public, uncaught_value_error}
use fxa_lite.Python.Strings.{is_in}
use fxa_lite.Oauth.Implicants.{ScopeError}
use fxa_lite.Oauth.Scopes.{ScopeSet, from_array, from_string, intersects}
use fxa_lite.Oauth.Clients.{
  Client, at_import, oldsync_scope, device_management_client_ids, registered,
}
use fxa_lite.Accounts.Database.{
  Database, Account, SessionToken, KeyFetchToken, RefreshToken, account,
}
use fxa_lite.Accounts.Database.Tokens.{session_token, key_fetch_token, refresh_token}

pub record SessionCredentials : Type 0 where
  pub token : SessionToken
  pub account : Account

pub record KeyFetchCredentials : Type 0 where
  pub token : KeyFetchToken
  pub account : Account

-- Exactly one of the session and the refresh token is set, and the client comes with the latter.
pub record DeviceCredentials : Type 0 where
  pub account : Account
  pub session : Option SessionToken
  pub refresh : Option RefreshToken
  pub client : Option Client

unfoldable pub not_found : Error
not_found = unauthorized "Token not found"

unfoldable pub session_with :
    SessionToken → Option Account → Result Error (Option SessionCredentials)
unfolding not_found
session_with token none = raised not_found
session_with token (some a) = ok (some (record { token = token; account = a }))

unfoldable pub session_found :
    Option SessionToken → Database → Result Error (Option SessionCredentials)
unfolding session_with not_found
session_found none db = raised not_found
session_found (some token) db = session_with token (account token.uid db)

unfoldable pub optional_session_credentials :
    Option String → Database → Result Error (Option SessionCredentials)
unfolding session_found
optional_session_credentials none db = ok none
optional_session_credentials (some id) db = session_found (session_token id db) db

unfoldable pub required : Result Error (Option SessionCredentials) → Result Error SessionCredentials
unfolding not_found
required (raised e) = raised e
required (ok none) = raised not_found
required (ok (some c)) = ok c

unfoldable pub session_credentials : Option String → Database → Result Error SessionCredentials
unfolding optional_session_credentials required
session_credentials id db = required (optional_session_credentials id db)

unfoldable pub key_fetch_with : KeyFetchToken → Option Account → Result Error KeyFetchCredentials
unfolding not_found
key_fetch_with token none = raised not_found
key_fetch_with token (some a) = ok (record { token = token; account = a })

unfoldable pub key_fetch_found : Option KeyFetchToken → Database → Result Error KeyFetchCredentials
unfolding key_fetch_with not_found
key_fetch_found none db = raised not_found
key_fetch_found (some token) db = key_fetch_with token (account token.uid db)

unfoldable pub key_fetch_credentials : Option String → Database → Result Error KeyFetchCredentials
unfolding key_fetch_found not_found
key_fetch_credentials none db = raised not_found
key_fetch_credentials (some id) db = key_fetch_found (key_fetch_token id db) db

unfoldable pub oldsync_set : ScopeSet
oldsync_set = at_import (from_array (oldsync_scope ∷ []))

unfoldable pub reaches_oldsync : Result ScopeError ScopeSet → Result Error Bool
unfolding oldsync_set
reaches_oldsync (raised e) = raised uncaught_value_error
reaches_oldsync (ok scope) = ok (intersects scope oldsync_set)

-- `record.client_id not in … and not ScopeSet.from_string(record.scope).intersects(…)`
unfoldable pub may_manage : RefreshToken → Result Error Bool
unfolding reaches_oldsync
may_manage grant =
    let by_scope = reaches_oldsync (from_string grant.scope) in
    if is_in grant.client_id device_management_client_ids then ok true else by_scope

unfoldable pub manages :
    Account → RefreshToken → Client → Result Error Bool → Result Error DeviceCredentials
manages a token client (raised e) = raised e
manages a token client (ok false) = raised (unauthorized "Token not allowed to manage devices")
manages a token client (ok true) =
    ok (record { account = a; session = none; refresh = some token; client = some client })

unfoldable pub of_client : Account → RefreshToken → Option Client → Result Error DeviceCredentials
unfolding manages may_manage
of_client a token none = raised (unauthorized "Unknown client")
of_client a token (some client) =
    if client.public_client
    then manages a token client (may_manage token)
    else raised client_not_public

unfoldable pub of_account :
    RefreshToken → Option Account → List Client → Result Error DeviceCredentials
unfolding of_client not_found
of_account token none clients = raised not_found
of_account token (some a) clients = of_client a token (registered token.client_id clients)

unfoldable pub of_refresh :
    Option RefreshToken → List Client → Database → Result Error DeviceCredentials
unfolding of_account not_found
of_refresh none clients db = raised not_found
of_refresh (some token) clients db = of_account token (account token.uid db) clients

unfoldable pub as_device : Result Error SessionCredentials → Result Error DeviceCredentials
as_device (raised e) = raised e
as_device (ok c) =
    ok (record { account = c.account; session = some c.token; refresh = none; client = none })

-- What the header carries: a bare bearer value, or what `token_id` reads of it.
pub data Offered : Type 0 where
  bare_bearer : String → Offered
  session_id : Option String → Offered

module _ (sha256_hex : String → String) where
  unfoldable pub refresh_credentials :
      String → List Client → Database → Result Error DeviceCredentials
  unfolding of_refresh
  refresh_credentials token clients db = of_refresh (refresh_token (sha256_hex token) db) clients db

  unfoldable pub device_credentials :
      Offered → List Client → Database → Result Error DeviceCredentials
  unfolding as_device
  device_credentials (bare_bearer token) clients db = refresh_credentials token clients db
  device_credentials (session_id id) clients db = as_device (session_credentials id db)
