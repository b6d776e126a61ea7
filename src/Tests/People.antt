-- ===== src/Tests/People.antt =====
-- A concrete account with its session, codes, refresh token and device.
use Prim.Native.String.{String}
use fxa_lite.Prelude.{false, true, none, some, [], ◌∷◌}
use fxa_lite.Python.Strings.{◌<>◌}
use fxa_lite.Accounts.Database.{
  Database, Account, SessionToken, KeyFetchToken, OauthCode, RefreshToken, Device,
}
use fxa_lite.Oauth.Codes.{TokenRequest}

-- stand-ins for the digests and for the stretched password
abbrev pub digest : String → String
digest s = "#" <> s

abbrev pub challenge_of : String → String
challenge_of s = "c" <> s

abbrev pub stretched : String → String → String
stretched password salt = salt <> password

abbrev pub alice : Account
alice = record {
  uid = "a1";
  email = "Alice@example.com";
  normalized_email = "alice@example.com";
  email_code = "e";
  ka = "k";
  wrap_wrap_kb = "w";
  auth_salt = "salt";
  verify_hash = "saltpw";
  verifier_version = 1;
  verifier_set_at = 1000;
  created_at = 1000;
  keys_changed_at = 1000;
  profile_changed_at = 1000;
  locale = none;
}

abbrev pub bob : Account
bob = record alice { uid = "b1"; email = "bob@example.com"; normalized_email = "bob@example.com" }

abbrev pub alice_session : SessionToken
alice_session = record {
  token_id = "s1";
  uid = "a1";
  auth_key = "k1";
  created_at = 2000;
  auth_at = 2000;
  last_access_time = 2000;
  user_agent = "";
}

abbrev pub alice_keys : KeyFetchToken
alice_keys = record {
  token_id = "f1";
  uid = "a1";
  auth_key = "k2";
  key_bundle = "bundle";
  created_at = 2000;
}

abbrev pub alice_code : OauthCode
alice_code = record {
  code = "#code";
  uid = "a1";
  client_id = "5882386c6d801776";
  scope = "profile https://identity.mozilla.com/apps/oldsync";
  created_at = 3000;
  auth_at = 2000;
  code_challenge = some "cverifier";
  code_challenge_method = some "S256";
  keys_jwe = some "jwe";
  session_token_id = some "s1";
  offline = true;
}

abbrev pub alice_refresh : RefreshToken
alice_refresh = record {
  token_id = "#refresh";
  uid = "a1";
  client_id = "5882386c6d801776";
  scope = "profile";
  created_at = 3000;
  last_used_at = 3000;
}

abbrev pub alice_phone : Device
alice_phone = record {
  id = "d1";
  uid = "a1";
  session_token_id = some "s1";
  refresh_token_id = none;
  name = "phone";
  type = "mobile";
  created_at = 3000;
  push_callback = "";
  push_public_key = "";
  push_auth_key = "";
  push_endpoint_expired = false;
  available_commands = [];
}

abbrev pub house : Database
house = record {
  accounts = alice ∷ bob ∷ [];
  session_tokens = alice_session ∷ [];
  key_fetch_tokens = alice_keys ∷ [];
  devices = [];
  oauth_codes = alice_code ∷ [];
  refresh_tokens = alice_refresh ∷ [];
  sync_users = [];
}

abbrev pub code_request : TokenRequest
code_request = record {
  grant_type = "authorization_code";
  client_id = "5882386c6d801776";
  code = some "code";
  code_verifier = some "verifier";
  refresh_token = none;
  scope = none;
  access_type = none;
  ttl = none;
}

abbrev pub refresh_request : TokenRequest
refresh_request = record code_request {
  grant_type = "refresh_token";
  code = none;
  code_verifier = none;
  refresh_token = some "refresh";
  scope = some "profile:email";
}
