-- ===== src/Oauth/Renewal.antt =====
-- oauth/routes.py: which scope and which grant a refresh token still gives.
use Prim.Native.String.{String}
use fxa_lite.Prelude.{ℕ, false, not, ◌&&◌, Option, none, some, [], str_eq, if◌then◌else◌}
use fxa_lite.Exec.{Result, ok, raised}
use fxa_lite.Errors.{
  Error, oauth_invalid_request_parameter, invalid_scopes, oauth_invalid_token, uncaught_value_error,
}
use fxa_lite.Python.Strings.{given}
use fxa_lite.Oauth.Implicants.{ScopeError, invalid_scope, value_error}
use fxa_lite.Oauth.Scopes.{ScopeSet, from_string, values, contains, union, difference}
use fxa_lite.Oauth.Clients.{Client}
use fxa_lite.Oauth.Grant.{Grant, trusted_allowed_scopes, non_refreshable_scopes}
use fxa_lite.Oauth.Codes.{TokenRequest}
use fxa_lite.Accounts.Database.{Db, Account, RefreshToken, account}
use fxa_lite.Accounts.Database.Tokens.{touch_refresh_token}

-- `_parse_scope`: only the InvalidScopeError becomes an answer
unfoldable pub parsed : String → Result ScopeError ScopeSet → Result Error ScopeSet
parsed field (ok s) = ok s
parsed field (raised (invalid_scope value)) = raised (oauth_invalid_request_parameter field)
parsed field (raised value_error) = raised uncaught_value_error

unfoldable pub parse_scope : String → String → Result Error ScopeSet
unfolding parsed
parse_scope value field = parsed field (from_string value)

-- The scope of a stored grant.
unfoldable pub stored : Result ScopeError ScopeSet → Result Error ScopeSet
stored (ok s) = ok s
stored (raised e) = raised uncaught_value_error

-- What a client may ask of a refresh token that holds the scope.
unfoldable pub renewable : Client → ScopeSet → ScopeSet
renewable client scope =
    if client.trusted
    then union (union scope client.allowed_scopes) trusted_allowed_scopes
    else scope

unfoldable pub narrowed : Client → ScopeSet → Result Error ScopeSet → Result Error ScopeSet
unfolding renewable
narrowed client scope (raised e) = raised e
narrowed client scope (ok requested) =
    if not (contains scope requested) && not (contains (renewable client scope) requested)
    then raised (invalid_scopes (values (difference requested scope)))
    else ok requested

unfoldable pub asked : Client → ScopeSet → Option String → Result Error ScopeSet
unfolding narrowed
asked client scope none = ok scope
asked client scope (some value) = narrowed client scope (parse_scope value "scope")

-- The scope that the refresh token grants to the request.
unfoldable pub renewed : Client → Option String → Result Error ScopeSet → Result Error ScopeSet
unfolding asked
renewed client requested (raised e) = raised e
renewed client requested (ok scope) = asked client scope (given requested)

unfoldable pub of_refresh : Client → Account → ScopeSet → Grant
of_refresh client a scope = record {
  client = client;
  uid = a.uid;
  email = a.email;
  scope = scope;
  auth_at = 0;
  generation = a.verifier_set_at;
  profile_changed_at = a.profile_changed_at;
  keys_changed_at = a.keys_changed_at;
  amr = [];
  aal = 0;
  session_token_id = none;
  keys_jwe = none;
  offline = false;
  key_bearing = [];
}

unfoldable pub refreshed : Client → RefreshToken → ScopeSet → ℕ → Option Account → Db Grant
unfolding of_refresh
refreshed client token scope now none db = (raised oauth_invalid_token, db)
refreshed client token scope now (some a) db =
    (ok (of_refresh client a scope), touch_refresh_token token.token_id now db)

unfoldable pub refresh_in : Client → RefreshToken → ℕ → Result Error ScopeSet → Db Grant
unfolding refreshed
refresh_in client token now (raised e) db = (raised e, db)
refresh_in client token now (ok scope) db =
    refreshed client token (difference scope non_refreshable_scopes) now (account token.uid db) db

unfoldable pub refresh_of : Client → TokenRequest → ℕ → Option RefreshToken → Db Grant
unfolding refresh_in renewed stored
refresh_of client payload now none db = (raised oauth_invalid_token, db)
refresh_of client payload now (some token) db =
    let scope = renewed client payload.scope (stored (from_string token.scope)) in
    if str_eq token.client_id client.id
    then refresh_in client token now scope db
    else (raised oauth_invalid_token, db)
