-- ===== src/Tests/Oauth.antt =====
-- Concrete clients, codes and refresh tokens.
use Prim.Native.String.{String}
use fxa_lite.Table.{fetch_one}
use fxa_lite.Prelude.{not, ◌&&◌, false, ◌≡◌, ◌≢◌, refl, true, none, some, List, [], ◌∷◌}
use fxa_lite.Exec.{ok}
use fxa_lite.Python.Strings.{is_in, given}
use fxa_lite.Oauth.Implicants.{implicants}
use fxa_lite.Oauth.Scopes.{
  ScopeSet, from_array, from_string, has, get, values, difference, is_empty, contains, filtered,
  union, keep_nonempty, without,
}
use fxa_lite.Oauth.Scopes.Irredundant.{from_array_irredundant}
use fxa_lite.Oauth.Scopes.Difference.{is_empty-difference}
use fxa_lite.Oauth.Clients.{Client, key_bearing_scopes, at_import, browser, oldsync_scope}
use fxa_lite.Oauth.Grant.{
  GrantRequest, Grant, claims_of, granted, validate_requested_grant, trusted_allowed_scopes,
  bearing, non_refreshable_scopes,
}
use fxa_lite.Oauth.Grant.Confined.{ceiling, validate_requested_grant-confined}
use fxa_lite.Oauth.Codes.{of_code, authorization_code_grant}
use fxa_lite.Oauth.Codes.Bound.{Redeems, authorization_code_grant-Redeems}
use fxa_lite.Oauth.Codes.Once.{authorization_code_grant-once}
use fxa_lite.Oauth.Tokens.{refresh_token_grant}
use fxa_lite.Oauth.Renewal.{of_refresh, parse_scope}
use fxa_lite.Accounts.Database.{OauthCode, account, is_value}
use fxa_lite.Accounts.Database.Tokens.{oauth_code, refresh_token, delete_oauth_code}
use fxa_lite.Accounts.Integrity.{Write, write_all}
use fxa_lite.Tests.People.{
  digest, challenge_of, alice, alice_session, alice_code, house, code_request, refresh_request,
}

abbrev some_scopes : List String
some_scopes = "profile:email" ∷ "https://identity.mozilla.com/apps/oldsync" ∷ "profile" ∷ []

abbrev scopes : ScopeSet
scopes = at_import (from_array some_scopes)

short_implicants_test :
    implicants "profile:email"
    ≡ ok ("profile:email:write" ∷ "profile:email" ∷ "profile:write" ∷ "profile" ∷ [])
unfolding implicants
short_implicants_test = refl

write_implicants_test :
    implicants "profile:email:write" ≡ ok ("profile:email:write" ∷ "profile:write" ∷ [])
unfolding implicants
write_implicants_test = refl

-- The end of line that `$` lets pass makes a scope of its own.
newline_test : implicants "profile\n" ≡ ok ("profile\n:write" ∷ "profile\n" ∷ [])
unfolding implicants
newline_test = refl

url_implicants_test : implicants "https://a.b/c/d" ≡ ok ("https://a.b/c/d" ∷ "https://a.b/c" ∷ [])
unfolding implicants
url_implicants_test = refl

values_test : values scopes ≡ "https://identity.mozilla.com/apps/oldsync" ∷ "profile" ∷ []
unfolding values at_import from_array
values_test = refl

scopes-valid : from_array some_scopes ≡ ok scopes
unfolding from_array at_import
scopes-valid = refl

has_profile : has "profile" scopes.scopes_to_implicants ≡ true
unfolding from_array at_import has
has_profile = refl

profile_own : is_in "profile" (get "profile" scopes.scopes_to_implicants) ≡ true
unfolding from_array at_import get is_in
profile_own = refl

abbrev profile : String
profile = "profile"

from_array_irredundant_example : profile ≡ profile
from_array_irredundant_example =
    from_array_irredundant some_scopes scopes profile profile scopes-valid has_profile profile_own

is_empty-difference_example :
    is_empty (difference scopes trusted_allowed_scopes) ≡ contains trusted_allowed_scopes scopes
is_empty-difference_example = is_empty-difference scopes trusted_allowed_scopes

abbrev pub desktop : Client
desktop = browser "5882386c6d801776" "Firefox" "https://fxa.home"

abbrev request : GrantRequest
request = record { scope = scopes; access_type = "offline"; keys_jwe = none }

abbrev its_grant : Grant
its_grant = record (granted (claims_of alice alice_session) desktop request scopes) {
  keys_jwe = none;
}

grant-valid :
    validate_requested_grant (claims_of alice alice_session) desktop request ≡ ok its_grant
unfolding validate_requested_grant granted claims_of browser from_array at_import
    trusted_allowed_scopes values is_empty difference filtered union keep_nonempty without
grant-valid = refl

abbrev bearers : ScopeSet
bearers = at_import (from_array (oldsync_scope ∷ []))

bearers-valid : from_array its_grant.key_bearing ≡ ok bearers
unfolding granted claims_of browser from_array at_import values bearing
bearers-valid = refl

validate_requested_grant-confined_example :
    (contains (ceiling desktop) its_grant.scope ≡ true)
    × (is_in oldsync_scope (values its_grant.scope)
          && is_in oldsync_scope key_bearing_scopes
          && not (is_in oldsync_scope its_grant.key_bearing)
        ≡ false)
    × (contains desktop.allowed_scopes bearers ≡ true)
validate_requested_grant-confined_example =
    validate_requested_grant-confined (claims_of alice alice_session) desktop request its_grant
      bearers oldsync_scope grant-valid bearers-valid

abbrev code_grant : Grant
code_grant = of_code desktop alice alice_code (at_import (from_string alice_code.scope))

redeemed :
    (authorization_code_grant digest challenge_of desktop code_request 600 4000 house).0
    ≡ ok code_grant
unfolding authorization_code_grant browser from_array at_import from_string of_code given oauth_code
    fetch_one is_value account delete_oauth_code
redeemed = refl

authorization_code_grant-Redeems_example :
    (presented : String) × (code_request.code ≡ some presented)
    × (code : OauthCode) × (oauth_code (digest presented) house ≡ some code)
    × Redeems challenge_of desktop code_request 600 4000 code code_grant
    × ((authorization_code_grant digest challenge_of desktop code_request 600 4000 house).1
        ≡ delete_oauth_code code.code house)
authorization_code_grant-Redeems_example =
    authorization_code_grant-Redeems digest challenge_of desktop code_request 600 4000 house
      code_grant redeemed

authorization_code_grant-once_example :
    (authorization_code_grant digest challenge_of desktop code_request 600 5000 (
      write_all
        (Write.session_touch "s1" 4500
          ∷ Write.new_code (record alice_code { code = "#other" })
          ∷ [])
        (authorization_code_grant digest challenge_of desktop code_request 600 4000 house).1)).0
    ≢ ok code_grant
authorization_code_grant-once_example =
    authorization_code_grant-once digest challenge_of desktop code_request 600 4000 house code_grant
      "code"
      (Write.session_touch "s1" 4500 ∷ Write.new_code (record alice_code { code = "#other" }) ∷ [])
      desktop code_request 600 5000 code_grant refl refl redeemed (tt, (refl, tt))

abbrev refresh_grant : Grant
refresh_grant = of_refresh desktop alice (at_import (from_array ("profile:email" ∷ [])))

renewed :
    (refresh_token_grant digest challenge_of desktop refresh_request 4000 house).0
    ≡ ok refresh_grant
unfolding refresh_token_grant browser from_array at_import from_string of_refresh refresh_token
    fetch_one given parse_scope contains account difference non_refreshable_scopes
renewed = refl
