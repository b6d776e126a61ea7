-- ===== src/Oauth/Codes.antt =====
-- oauth/routes.py: the authorization code, redeemed with its PKCE verifier. `sha256_hex` and
-- `s256` are the digests that hashlib and base64 make of ASCII text; `now` is `now_ms()`.
pub mod Bound
pub mod Once
use Prim.Native.String.{String}
use fxa_lite.Prelude.{
  ℕ, ◌+◌, ◌*◌, ◌/◌, Bool, true, false, not, ◌&&◌, Option, none, some, List, [], ◌∷◌, str_eq, ltb,
  is_some, if◌then◌else◌,
}
use fxa_lite.Exec.{Result, ok, raised}
use fxa_lite.Errors.{
  Error, oauth_invalid_request_parameter, not_public_client, unknown_code, mismatch_code,
  expired_code, mismatch_code_challenge, missing_pkce_parameters, oauth_invalid_token,
  uncaught_value_error,
}
use fxa_lite.Python.Strings.{given}
use fxa_lite.Oauth.Implicants.{ScopeError}
use fxa_lite.Oauth.Scopes.{ScopeSet, from_string}
use fxa_lite.Oauth.Clients.{Client}
use fxa_lite.Oauth.Grant.{Grant}
use fxa_lite.Accounts.Database.{Database, Db, Account, OauthCode, account, is_value}
use fxa_lite.Accounts.Database.Tokens.{oauth_code, delete_oauth_code}

abbrev pub pkce_method : String
pkce_method = "S256"

-- `TokenRequest`
pub record TokenRequest : Type 0 where
  pub grant_type : String
  pub client_id : String
  pub code : Option String
  pub code_verifier : Option String
  pub refresh_token : Option String
  pub scope : Option String
  pub access_type : Option String
  pub ttl : Option ℕ

unfoldable pub of_code : Client → Account → OauthCode → ScopeSet → Grant
of_code client a code scope = record {
  client = client;
  uid = a.uid;
  email = a.email;
  scope = scope;
  auth_at = code.auth_at / 1000;
  generation = a.verifier_set_at;
  profile_changed_at = a.profile_changed_at;
  keys_changed_at = a.keys_changed_at;
  amr = "pwd" ∷ "email" ∷ [];
  aal = 1;
  session_token_id = code.session_token_id;
  keys_jwe = code.keys_jwe;
  offline = code.offline;
  key_bearing = [];
}

-- `_grant_from_code`
unfoldable pub grant_from_code :
    Client → Account → OauthCode → Result ScopeError ScopeSet → Result Error Grant
unfolding of_code
grant_from_code client a code (raised e) = raised uncaught_value_error
grant_from_code client a code (ok scope) = ok (of_code client a code scope)

unfoldable pub for_account : Client → OauthCode → Option Account → Result Error Grant
unfolding grant_from_code
for_account client code none = raised oauth_invalid_token
for_account client code (some a) = grant_from_code client a code (from_string code.scope)

-- The code is spent, whether or not a grant comes of it.
unfoldable pub spend : Client → OauthCode → Result Error (Unit {0}) → Db Grant
unfolding for_account
spend client code (raised e) db = (raised e, db)
spend client code (ok _) db =
    let spent = delete_oauth_code code.code db in
    (for_account client code (account code.uid spent), spent)

module _ (sha256_hex s256 : String → String) where
  unfoldable pub check_against : String → Option String → Result Error (Unit {0})
  check_against challenge none = raised missing_pkce_parameters
  check_against challenge (some verifier) =
      if str_eq challenge (s256 verifier)
      then ok tt
      else raised (mismatch_code_challenge (some (s256 verifier)))

  unfoldable pub check_given :
      Option String → Option String → Option String → Result Error (Unit {0})
  unfolding check_against
  check_given none method none = ok tt
  check_given none method (some verifier) = raised (mismatch_code_challenge (some (s256 verifier)))
  check_given (some challenge) method verifier =
      if is_value pkce_method method
      then check_against challenge verifier
      else raised (mismatch_code_challenge none)

  -- `_check_code_verifier`
  unfoldable pub check_code_verifier : OauthCode → Option String → Result Error (Unit {0})
  unfolding check_given
  check_code_verifier code verifier =
      check_given (given code.code_challenge) code.code_challenge_method (given verifier)

  unfoldable pub redeem : Client → TokenRequest → String → ℕ → ℕ → Option OauthCode → Db Grant
  unfolding spend check_code_verifier
  redeem client payload presented ttl now none db = (raised (unknown_code presented), db)
  redeem client payload presented ttl now (some code) db =
      let expires_at = code.created_at + ttl * 1000 in
      if not (str_eq code.client_id client.id)
      then (raised (mismatch_code presented client.id), db)
      else if ltb expires_at now
      then (raised (expired_code presented expires_at), delete_oauth_code code.code db)
      else spend client code (check_code_verifier code payload.code_verifier) db

  unfoldable pub redeem_presented : Client → TokenRequest → Option String → ℕ → ℕ → Db Grant
  unfolding redeem
  redeem_presented client payload none ttl now db =
      (raised (oauth_invalid_request_parameter "code"), db)
  redeem_presented client payload (some presented) ttl now db =
      if is_some (given payload.code_verifier) && not client.public_client
      then (raised (not_public_client client.id), db)
      else redeem client payload presented ttl now (oauth_code (sha256_hex presented) db) db

  -- `_authorization_code_grant`
  unfoldable pub authorization_code_grant : Client → TokenRequest → ℕ → ℕ → Db Grant
  unfolding redeem_presented
  authorization_code_grant client payload ttl now =
      redeem_presented client payload payload.code ttl now
