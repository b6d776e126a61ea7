-- ===== src/Oauth/Tokens.antt =====
-- oauth/routes.py: the refresh token grant, the direct grant, and `oauth_token`; grant.py: the
-- tokens that a grant is answered with. An access token is its claims, which jose would sign;
-- `fresh` and `jti` are the random texts that a call draws.
pub mod Refresh
use Prim.Native.String.{String}
use fxa_lite.Prelude.{
  zero, suc, ℕ, ◌+◌, ◌/◌, Bool, true, false, not, ◌&&◌, Option, none, some, List, [], ◌∷◌, str_eq,
  ltb, min, is_some, if◌then◌else◌, get_or,
}
use fxa_lite.Exec.{Result, ok, raised, ◌>>=◌, pure, raise, reads, modify, Exec}
use fxa_lite.Errors.{
  Error, oauth_invalid_request_parameter, not_public_client, invalid_scopes, oauth_invalid_token,
  invalid_grant_type, unknown_client, unauthorized, uncaught_value_error,
}
use fxa_lite.Python.Strings.{given}
use fxa_lite.Oauth.Implicants.{ScopeError, invalid_scope, value_error}
use fxa_lite.Oauth.Scopes.{
  ScopeSet, from_array, from_string, values, to_string, contains, union, difference,
}
use fxa_lite.Oauth.Clients.{Client, at_import, registered, oldsync_scope}
use fxa_lite.Oauth.Grant.{
  Grant, GrantRequest, claims_of, trusted_allowed_scopes, non_refreshable_scopes,
  validate_requested_grant,
}
use fxa_lite.Oauth.Codes.{TokenRequest, authorization_code_grant}
use fxa_lite.Accounts.Database.{Database, Db, Account, RefreshToken, account}
use fxa_lite.Accounts.Database.Tokens.{refresh_token, touch_refresh_token, create_refresh_token}
use fxa_lite.Accounts.Credentials.{SessionCredentials, oldsync_set}
use fxa_lite.Oauth.Renewal.{
  parse_scope, stored, renewable, narrowed, asked, renewed, of_refresh, refreshed, refresh_in,
  refresh_of,
}

-- `_fxa_credentials_grant`; `credentials` is what `optional_session_credentials` gave
claimed : Client → Option String → Result Error ScopeSet → SessionCredentials → Result Error Grant
claimed client access_type (raised e) c = raised e
claimed client access_type (ok scope) c =
    validate_requested_grant (claims_of c.account c.token) client
      (record { scope = scope; access_type = get_or "online" (given access_type); keys_jwe = none })

with_session :
    Client → Option String → String → Result Error (Option SessionCredentials) → Result Error Grant
unfolding claimed
with_session client access_type scope (raised e) = raised e
with_session client access_type scope (ok none) = raised (unauthorized "Token not found")
with_session client access_type scope (ok (some c)) =
    claimed client access_type (parse_scope scope "scope") c

direct :
    Client
    → Option String
    → Option String
    → Result Error (Option SessionCredentials)
    → Result Error Grant
unfolding with_session
direct client access_type none credentials = raised (oauth_invalid_request_parameter "scope")
direct client access_type (some scope) credentials =
    with_session client access_type scope credentials

unfoldable pub fxa_credentials_grant :
    Client → TokenRequest → Result Error (Option SessionCredentials) → Result Error Grant
unfolding direct
fxa_credentials_grant client payload credentials =
    if not client.can_grant
    then raised invalid_grant_type
    else if not client.public_client
    then raised (not_public_client client.id)
    else direct client payload.access_type payload.scope credentials

-- The claims of an access token; 0 stands for a claim that is left out.
pub record AccessClaims : Type 0 where
  pub aud : String
  pub client_id : String
  pub exp : ℕ
  pub iat : ℕ
  pub iss : String
  pub jti : String
  pub scope : String
  pub sub : String
  pub generation : ℕ
  pub profile_changed_at : ℕ
  pub aal : ℕ
  pub auth_time : ℕ

-- `_access_token`, before the signature
unfoldable pub access_claims : String → String → String → ℕ → ℕ → Grant → AccessClaims
unfolding oldsync_set
access_claims issuer tokenserver_url jti ttl now g = record {
  aud = if contains g.scope oldsync_set then tokenserver_url else g.client.id;
  client_id = g.client.id;
  exp = now / 1000 + ttl;
  iat = now / 1000;
  iss = issuer;
  jti = jti;
  scope = to_string g.scope;
  sub = g.uid;
  generation = g.generation;
  profile_changed_at = g.profile_changed_at;
  aal = g.aal;
  auth_time = g.auth_at;
}

pub record TokenResponse : Type 0 where
  pub access_token : AccessClaims
  pub scope : String
  pub expires_in : ℕ
  pub auth_at : ℕ
  pub keys_jwe : Option String
  pub refresh_token : Option String

-- The settings that `oauth_token` reads off the application.
pub record Settings : Type 0 where
  pub clients : List Client
  pub issuer : String
  pub tokenserver_url : String
  pub code_ttl : ℕ
  pub access_ttl : ℕ

module _ (sha256_hex s256 : String → String) where
  -- `_refresh_token_grant`
  refresh_presented : Client → TokenRequest → ℕ → Option String → Db Grant
  unfolding refresh_of
  refresh_presented client payload now none db =
      (raised (oauth_invalid_request_parameter "refresh_token"), db)
  refresh_presented client payload now (some presented) db =
      refresh_of client payload now (refresh_token (sha256_hex presented) db) db

  unfoldable pub refresh_token_grant : Client → TokenRequest → ℕ → Db Grant
  unfolding refresh_presented
  refresh_token_grant client payload now =
      refresh_presented client payload now payload.refresh_token

  -- `mint_refresh_token`
  unfoldable pub mint_refresh_token : String → ℕ → Grant → Db (Unit {0})
  mint_refresh_token fresh now g = create_refresh_token (record {
    token_id = sha256_hex fresh;
    uid = g.uid;
    client_id = g.client.id;
    scope = to_string g.scope;
    created_at = now;
    last_used_at = now;
  })

  answer : AccessClaims → Grant → ℕ → Option String → TokenResponse
  answer token g ttl refresh = record {
    access_token = token;
    scope = to_string g.scope;
    expires_in = ttl;
    auth_at = g.auth_at;
    keys_jwe = given g.keys_jwe;
    refresh_token = refresh;
  }

  unfoldable pub generate_tokens : Settings → String → String → ℕ → ℕ → Grant → Db TokenResponse
  unfolding access_claims mint_refresh_token answer ◌>>=◌ pure
  generate_tokens settings fresh jti ttl now g =
      let token = access_claims settings.issuer settings.tokenserver_url jti ttl now g in
      if g.offline
      then (mint_refresh_token fresh now g >>= λ _. pure (answer token g ttl (some fresh)))
      else pure (answer token g ttl none)

  granted_by :
      Settings → Client → TokenRequest → Result Error (Option SessionCredentials) → ℕ → Db Grant
  unfolding refresh_token_grant fxa_credentials_grant raise reads
  granted_by settings client payload credentials now =
      if str_eq payload.grant_type "authorization_code"
      then authorization_code_grant sha256_hex s256 client payload settings.code_ttl now
      else if str_eq payload.grant_type "refresh_token"
      then refresh_token_grant client payload now
      else if str_eq payload.grant_type "fxa-credentials"
      then reads (λ db. fxa_credentials_grant client payload credentials)
      else raise invalid_grant_type

  -- `payload.ttl or config.ttl.access_token`: a 0 counts as absent
  nonzero : Option ℕ → Option ℕ
  nonzero none = none
  nonzero (some zero) = none
  nonzero (some (suc n)) = some (suc n)

  for_client :
      Settings
      → TokenRequest
      → Result Error (Option SessionCredentials)
      → String
      → String
      → ℕ
      → Option Client
      → Db TokenResponse
  unfolding nonzero granted_by generate_tokens raise ◌>>=◌
  for_client settings payload credentials fresh jti now none =
      raise (unknown_client payload.client_id)
  for_client settings payload credentials fresh jti now (some client) =
      let ttl = min (get_or settings.access_ttl (nonzero payload.ttl)) settings.access_ttl in
      if is_some payload.access_type && not (str_eq payload.grant_type "fxa-credentials")
      then raise (oauth_invalid_request_parameter "access_type")
      else granted_by settings client payload credentials now
        >>= generate_tokens settings fresh jti ttl now

  -- `POST /v1/oauth/token`
  unfoldable pub oauth_token :
      Settings
      → TokenRequest
      → Result Error (Option SessionCredentials)
      → String
      → String
      → ℕ
      → Db TokenResponse
  unfolding for_client
  oauth_token settings payload credentials fresh jti now =
      for_client settings payload credentials fresh jti now
        (registered payload.client_id settings.clients)
