-- ===== src/Oauth/Grant.antt =====
-- oauth/grant.py: what a client may have for a user.
pub mod Confined
use Prim.Native.String.{String}
use fxa_lite.Prelude.{
  ℕ, ◌/◌, Bool, true, false, not, ◌&&◌, ◌||◌, Option, none, some, List, [], ◌∷◌, str_eq,
  if◌then◌else◌,
}
use fxa_lite.Exec.{Result, ok, raised}
use fxa_lite.Errors.{Error, invalid_scopes, uncaught_value_error}
use fxa_lite.Python.Strings.{is_in}
use fxa_lite.Oauth.Implicants.{ScopeError}
use fxa_lite.Oauth.Scopes.{ScopeSet, from_array, values, is_empty, difference, filtered, union}
use fxa_lite.Oauth.Clients.{Client, at_import, key_bearing_scopes}
use fxa_lite.Accounts.Database.{Account, SessionToken, last_auth_at}

unfoldable pub untrusted_allowed_scopes : ScopeSet
unfolding at_import
untrusted_allowed_scopes =
    at_import
      (from_array ("openid" ∷ "profile:uid" ∷ "profile:email" ∷ "profile:display_name" ∷ []))

unfoldable pub trusted_allowed_scopes : ScopeSet
unfolding at_import
trusted_allowed_scopes =
    at_import (from_array ("openid" ∷ "profile" ∷ "email" ∷ "profile:subscriptions" ∷ []))

unfoldable pub non_refreshable_scopes : ScopeSet
unfolding at_import
non_refreshable_scopes =
    at_import (from_array ("openid" ∷ "https://identity.mozilla.com/tokens/session" ∷ []))

pub record SessionClaims : Type 0 where
  pub uid : String
  pub email : String
  pub session_token_id : String
  pub generation : ℕ
  pub last_auth_at : ℕ
  pub profile_changed_at : ℕ
  pub keys_changed_at : ℕ
  pub amr : List String
  pub aal : ℕ

-- `SessionClaims.for_session`
unfoldable pub claims_of : Account → SessionToken → SessionClaims
claims_of account token = record {
  uid = account.uid;
  email = account.email;
  session_token_id = token.token_id;
  generation = account.verifier_set_at;
  last_auth_at = last_auth_at token;
  profile_changed_at = account.profile_changed_at;
  keys_changed_at = account.keys_changed_at;
  amr = "pwd" ∷ "email" ∷ [];
  aal = 1;
}

pub record GrantRequest : Type 0 where
  pub scope : ScopeSet
  pub access_type : String
  pub keys_jwe : Option String

pub record Grant : Type 0 where
  pub client : Client
  pub uid : String
  pub email : String
  pub scope : ScopeSet
  pub auth_at : ℕ
  pub generation : ℕ
  pub profile_changed_at : ℕ
  pub keys_changed_at : ℕ
  pub amr : List String
  pub aal : ℕ
  pub session_token_id : Option String
  pub keys_jwe : Option String
  pub offline : Bool
  pub key_bearing : List String

-- the scopes that carry a key
unfoldable pub bearing : List String → List String
bearing [] = []
bearing (v ∷ vs) = let rest = bearing vs in if is_in v key_bearing_scopes then v ∷ rest else rest

unfoldable pub granted : SessionClaims → Client → GrantRequest → ScopeSet → Grant
granted claims client request scope = record {
  client = client;
  uid = claims.uid;
  email = claims.email;
  scope = scope;
  auth_at = claims.last_auth_at;
  generation = claims.generation;
  profile_changed_at = claims.profile_changed_at;
  keys_changed_at = claims.keys_changed_at;
  amr = claims.amr;
  aal = claims.aal;
  session_token_id = some claims.session_token_id;
  keys_jwe = request.keys_jwe;
  offline = str_eq request.access_type "offline";
  key_bearing = bearing (values request.scope);
}

-- The trim of a trusted client's request, and the grant.
unfoldable pub trimmed : SessionClaims → Client → GrantRequest → Result Error Grant
unfolding granted
trimmed claims client request =
    let allowed = union client.allowed_scopes trusted_allowed_scopes in
    let scope = filtered request.scope allowed in
    if client.trusted
    then if is_empty scope && not (is_empty request.scope)
      then raised (invalid_scopes (values request.scope))
      else ok (granted claims client request scope)
    else ok (granted claims client request request.scope)

-- The scopes with keys, which the client must have in its own list. They are scopes of the request,
-- so that the set of them can be built.
unfoldable pub keys_checked :
    SessionClaims → Client → GrantRequest → Result ScopeError ScopeSet → Result Error Grant
unfolding trimmed
keys_checked claims client request (raised e) = raised uncaught_value_error
keys_checked claims client request (ok bearers) =
    let forbidden = difference bearers client.allowed_scopes in
    if is_empty forbidden
    then trimmed claims client request
    else raised (invalid_scopes (values forbidden))

unfoldable pub validate_requested_grant : SessionClaims → Client → GrantRequest → Result Error Grant
unfolding keys_checked bearing
validate_requested_grant claims client request =
    let invalid = difference request.scope untrusted_allowed_scopes in
    if not client.trusted && not (is_empty invalid)
    then raised (invalid_scopes (values invalid))
    else keys_checked claims client request (from_array (bearing (values request.scope)))
