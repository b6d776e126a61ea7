-- ===== src/Tests/Authorization.antt =====
-- A concrete sign-in: a session gets a code, and the browser redeems it.
use Prim.Native.String.{String}
use fxa_lite.Table.{fetch_one, delete}
use fxa_lite.Accounts.Database.Tokens.{
  create_oauth_code, delete_expired_oauth_codes, is_insertable, oauth_code, delete_oauth_code,
}
use fxa_lite.Prelude.{◌≡◌, refl, true, some, none, List, [], ◌∷◌, is_some}
use fxa_lite.Exec.{ok}
use fxa_lite.Python.Strings.{given, words, lower, is_in}
use fxa_lite.Oauth.Scopes.{
  ScopeSet, to_string, from_string, values, from_array, is_empty, difference, filtered, union,
  keep_nonempty, without, contains,
}
use fxa_lite.Oauth.Clients.{Client, at_import, registered, browser, service_scopes, redirect_uri}
use fxa_lite.Oauth.Grant.{
  Grant, GrantRequest, claims_of, granted, validate_requested_grant, trusted_allowed_scopes,
}
use fxa_lite.Oauth.Grant.Confined.{ceiling}
use fxa_lite.Oauth.Codes.{TokenRequest, of_code, authorization_code_grant}
use fxa_lite.Oauth.Codes.Bound.{Answers}
use fxa_lite.Oauth.Tokens.{Settings}
use fxa_lite.Oauth.Renewal.{parse_scope, stored}
use fxa_lite.Oauth.Authorization.{
  AuthorizationRequest, AuthorizationResponse, issued_code, oauth_authorization, requested_scope,
}
use fxa_lite.Oauth.Authorization.Bound.{authorization_code_grant-oauth_authorization}
use fxa_lite.Accounts.Database.{last_auth_at, is_value, account}
use fxa_lite.Accounts.Credentials.{SessionCredentials}
use fxa_lite.Tests.People.{digest, challenge_of, alice, alice_session, house, code_request}
use fxa_lite.Tests.Oauth.{desktop}

-- stand-ins for the query of a URI: it has none, and its parameters are put behind nothing
abbrev no_query : String → List (String × String)
no_query uri = []

abbrev same_uri : String → List (String × String) → String
same_uri uri query = uri

abbrev settings : Settings
settings = record {
  clients = desktop ∷ [];
  issuer = "https://fxa.home";
  tokenserver_url = "https://fxa.home/token";
  code_ttl = 600;
  access_ttl = 3600;
}

abbrev sign_in_request : AuthorizationRequest
sign_in_request = record {
  client_id = "5882386c6d801776";
  state = "st";
  response_type = "code";
  redirect_uri = none;
  scope = none;
  access_type = "offline";
  code_challenge_method = some "S256";
  code_challenge = some "cverifier";
  keys_jwe = some "jwe";
  acr_values = some "AAL1 ";
  max_age = some 10;
  service = some "Sync";
}

abbrev session : SessionCredentials
session = record { token = alice_session; account = alice }

aal2_test : words " AAL1\tAAL2  x" ≡ "AAL1" ∷ "AAL2" ∷ "x" ∷ []
unfolding words
aal2_test = refl

abbrev sync_scope : ScopeSet
sync_scope = at_import (from_string "https://identity.mozilla.com/apps/oldsync profile")

service_test : requested_scope sign_in_request ≡ ok sync_scope
unfolding requested_scope given service_scopes lower from_array at_import from_string
service_test = refl

abbrev answered_code : AuthorizationResponse
answered_code = record {
  code = "drawn";
  state = "st";
  redirect = "urn:ietf:wg:oauth:2.0:oob:oauth-redirect-webchannel";
  scope = to_string sync_scope;
}

signed_in :
    (oauth_authorization digest no_query same_uri settings sign_in_request session "drawn" 9000 9001
      house).0
    ≡ ok answered_code
unfolding oauth_authorization registered browser lower given service_scopes words last_auth_at
    is_value validate_requested_grant values is_empty difference filtered union
    trusted_allowed_scopes create_oauth_code delete_expired_oauth_codes fetch_one keep_nonempty
    without from_array from_string at_import is_in granted claims_of to_string account is_insertable
    redirect_uri parse_scope stored issued_code delete
signed_in = refl

abbrev drawn_request : TokenRequest
drawn_request = record code_request { code = some "drawn" }

abbrev request_of_session : GrantRequest
request_of_session = record { scope = sync_scope; access_type = "offline"; keys_jwe = some "jwe" }

abbrev sign_in_grant : Grant
sign_in_grant =
    of_code desktop alice
      (issued_code digest no_query same_uri desktop sign_in_request alice_session "drawn" 9001
        (granted (claims_of alice alice_session) desktop request_of_session sync_scope))
      sync_scope

sign_in-redeemed :
    (authorization_code_grant digest challenge_of desktop drawn_request 600 9500
      (oauth_authorization digest no_query same_uri settings sign_in_request session "drawn" 9000
        9001 house).1).0
    ≡ ok sign_in_grant
unfolding oauth_authorization registered browser lower given service_scopes words last_auth_at
    is_value validate_requested_grant values is_empty difference filtered union
    trusted_allowed_scopes create_oauth_code delete_expired_oauth_codes fetch_one keep_nonempty
    without from_array from_string at_import is_in granted claims_of to_string account is_insertable
    redirect_uri parse_scope stored issued_code authorization_code_grant oauth_code
    delete_oauth_code of_code delete
sign_in-redeemed = refl

authorization_code_grant-oauth_authorization_example :
    (client : Client) × (registered "5882386c6d801776" settings.clients ≡ some client)
    × (client.id ≡ desktop.id)
    × (sign_in_grant.uid ≡ alice.uid)
    × (sign_in_grant.keys_jwe ≡ some "jwe")
    × (from_string answered_code.scope ≡ ok sign_in_grant.scope)
    × (contains (ceiling client) sign_in_grant.scope ≡ true)
    × (is_some (given sign_in_request.code_challenge) ≡ client.public_client)
    × Answers challenge_of
        (given sign_in_request.code_challenge)
        (given drawn_request.code_verifier)
authorization_code_grant-oauth_authorization_example =
    authorization_code_grant-oauth_authorization digest challenge_of no_query same_uri settings
      sign_in_request session "drawn" 9000 9001 house answered_code desktop drawn_request 600 9500
      sign_in_grant signed_in refl sign_in-redeemed
