-- ===== src/Oauth/Authorization.antt =====
-- oauth/routes.py: the authorization route, which turns a session into a code. `sha256_hex` is the
-- digest of ASCII text; `query_of` and `with_query` are what urllib.parse makes of the query of a
-- URI, as a dict of its parameters; `fresh` is the code that is drawn, `checked` and `now` are the
-- two instants at which the route reads the clock.
pub mod Requested
pub mod Issued
pub mod Bound
use Prim.Native.String.{String, ◌∷◌}
use fxa_lite.Prelude.{
  ℕ, ◌+◌, ◌*◌, ◌/◌, ◌-◌, Bool, true, false, not, ◌&&◌, ◌||◌, Option, none, some, List, [], ◌∷◌,
  ◌++◌, str_eq, ltb, is_some, if◌then◌else◌,
}
use fxa_lite.Exec.{Result, ok, raised, ◌>>=◌, pure, raise, reads}
use fxa_lite.Errors.{
  Error, oauth_invalid_request_parameter, not_public_client, missing_pkce_parameters,
  incorrect_redirect, invalid_response_type, mismatch_acr_values, unknown_client,
}
use fxa_lite.Python.Strings.{is_in, lower, given, words}
use fxa_lite.Oauth.Scopes.{ScopeSet, from_array, to_string}
use fxa_lite.Oauth.Clients.{Client, redirect_uri, registered, oldsync_scope, service_scopes}
use fxa_lite.Oauth.Grant.{Grant, claims_of, validate_requested_grant}
use fxa_lite.Oauth.Codes.{pkce_method}
use fxa_lite.Oauth.Tokens.{Settings}
use fxa_lite.Oauth.Renewal.{parse_scope, stored}
use fxa_lite.Accounts.Database.{Database, Db, SessionToken, OauthCode, last_auth_at, is_value}
use fxa_lite.Accounts.Database.Tokens.{create_oauth_code, delete_expired_oauth_codes}
use fxa_lite.Accounts.Credentials.{SessionCredentials}

abbrev pub max_age_leeway : ℕ
max_age_leeway = 5

-- `AuthorizationRequest`, as far as the route reads it
pub record AuthorizationRequest : Type 0 where
  pub client_id : String
  pub state : String
  pub response_type : String
  pub redirect_uri : Option String
  pub scope : Option String
  pub access_type : String
  pub code_challenge_method : Option String
  pub code_challenge : Option String
  pub keys_jwe : Option String
  pub acr_values : Option String
  pub max_age : Option ℕ
  pub service : Option String

-- `_redirect_uri`
unfoldable pub redirect_target : Client → Option String → Result Error String
redirect_target client none = ok (redirect_uri client)
redirect_target client (some requested) =
    if is_in requested client.redirect_uris
    then ok requested
    else raised (incorrect_redirect requested)

-- the scopes that a service stands for, with the Sync scope if there are wrapped keys
unfoldable pub resolved_scope : Option (List String) → Option String → Result Error ScopeSet
unfolding stored
resolved_scope none keys_jwe = raised (oauth_invalid_request_parameter "service")
resolved_scope (some values) keys_jwe = stored (
    from_array (
      if is_some keys_jwe && not (is_in oldsync_scope values)
      then values ++ (oldsync_scope ∷ [])
      else values))

unfoldable pub service_scope : Option String → Option String → Result Error ScopeSet
unfolding resolved_scope
service_scope none keys_jwe = raised (oauth_invalid_request_parameter "scope")
service_scope (some service) keys_jwe = resolved_scope (service_scopes (lower service)) keys_jwe

unfoldable pub scope_or_service :
    Option String → Option String → Option String → Result Error ScopeSet
unfolding service_scope
scope_or_service (some scope) service keys_jwe = parse_scope scope "scope"
scope_or_service none service keys_jwe = service_scope service keys_jwe

-- `_requested_scope`
unfoldable pub requested_scope : AuthorizationRequest → Result Error ScopeSet
unfolding scope_or_service
requested_scope payload =
    scope_or_service (given payload.scope) (given payload.service) (given payload.keys_jwe)

unfoldable pub wants_aal2 : Option String → Bool
wants_aal2 none = false
wants_aal2 (some acr_values) = is_in "AAL2" (words acr_values)

unfoldable pub is_too_old : Option ℕ → ℕ → ℕ → Bool
is_too_old none auth_at at = false
is_too_old (some max_age) auth_at at = ltb (auth_at + max_age + max_age_leeway) (at / 1000)

-- `_check_authentication_strength`
unfoldable pub check_authentication_strength :
    AuthorizationRequest → ℕ → ℕ → Result Error (Unit {0})
unfolding wants_aal2 is_too_old
check_authentication_strength payload auth_at at =
    if wants_aal2 payload.acr_values || is_too_old payload.max_age auth_at at
    then raised (mismatch_acr_values "1")
    else ok tt

-- `_check_pkce_parameters`
unfoldable pub check_pkce_parameters : Client → AuthorizationRequest → Result Error (Unit {0})
check_pkce_parameters client payload =
    let challenge = is_some (given payload.code_challenge) in
    let method = is_some (given payload.code_challenge_method) in
    if client.public_client && not (challenge && method)
    then raised missing_pkce_parameters
    else if not client.public_client && (challenge || method)
    then raised (not_public_client client.id)
    else if method && not (is_value pkce_method payload.code_challenge_method)
    then raised (oauth_invalid_request_parameter "code_challenge_method")
    else ok tt

-- `query[key] = value`
unfoldable pub set_parameter : String → String → List (String × String) → List (String × String)
set_parameter key value [] = (key, value) ∷ []
set_parameter key value ((k, old) ∷ query) =
    let rest = set_parameter key value query in
    if str_eq k key then (k, value) ∷ query else (k, old) ∷ rest

pub record AuthorizationResponse : Type 0 where
  pub code : String
  pub state : String
  pub redirect : String
  pub scope : String

module _ (sha256_hex : String → String) (query_of : String → List (String × String))
    (with_query : String → List (String × String) → String) where
  -- `_redirect_with_code`
  unfoldable pub redirect_with_code : String → String → String → String
  unfolding set_parameter
  redirect_with_code uri code state =
      with_query uri (set_parameter "state" state (set_parameter "code" code (query_of uri)))

  -- the code as it is stored
  unfoldable pub issued_code :
      Client → AuthorizationRequest → SessionToken → String → ℕ → Grant → OauthCode
  issued_code client payload token fresh now g = record {
    code = sha256_hex fresh;
    uid = g.uid;
    client_id = client.id;
    scope = to_string g.scope;
    created_at = now;
    auth_at = token.auth_at;
    code_challenge = payload.code_challenge;
    code_challenge_method = payload.code_challenge_method;
    keys_jwe = payload.keys_jwe;
    session_token_id = some token.token_id;
    offline = g.offline;
  }

  unfoldable pub issue :
      ℕ
      → Client
      → AuthorizationRequest
      → SessionToken
      → String
      → String
      → ℕ
      → Grant
      → Db AuthorizationResponse
  unfolding issued_code redirect_with_code ◌>>=◌ pure
  issue ttl client payload token uri fresh now g db =
      (create_oauth_code (issued_code client payload token fresh now g) >>= λ _. pure (record {
        code = fresh;
        state = payload.state;
        redirect = redirect_with_code uri fresh payload.state;
        scope = to_string g.scope;
      }))
        (delete_expired_oauth_codes (now - ttl * 1000) db).1

  unfoldable pub authorized :
      Settings
      → AuthorizationRequest
      → SessionCredentials
      → String
      → ℕ
      → ℕ
      → Option Client
      → Db AuthorizationResponse
  unfolding issue redirect_target requested_scope check_authentication_strength
      check_pkce_parameters ◌>>=◌ raise reads
  authorized settings payload credentials fresh checked now none =
      raise (unknown_client payload.client_id)
  authorized settings payload credentials fresh checked now (some client) =
      reads (λ _. redirect_target client payload.redirect_uri) >>= λ uri.
      reads (λ _. requested_scope payload) >>= λ scope.
      reads (λ _. check_authentication_strength payload (last_auth_at credentials.token) checked)
      >>= λ _. reads (λ _. check_pkce_parameters client payload) >>= λ _.
          reads (λ _.
            validate_requested_grant (claims_of credentials.account credentials.token) client
              (record {
                scope = scope;
                access_type = payload.access_type;
                keys_jwe = payload.keys_jwe;
              }))
          >>= issue settings.code_ttl client payload credentials.token uri fresh now

  -- `POST /v1/oauth/authorization`
  unfoldable pub oauth_authorization :
      Settings
      → AuthorizationRequest
      → SessionCredentials
      → String
      → ℕ
      → ℕ
      → Db AuthorizationResponse
  unfolding authorized raise
  oauth_authorization settings payload credentials fresh checked now =
      if not (str_eq payload.response_type "code")
      then raise invalid_response_type
      else authorized settings payload credentials fresh checked now
          (registered payload.client_id settings.clients)
