-- ===== src/Oauth/Clients.antt =====
-- oauth/clients.py: the registry of clients and the scopes that the server knows by name.
use Prim.Native.String.{String}
use fxa_lite.Prelude.{Bool, true, Option, none, some, List, [], ◌∷◌, str_eq, if◌then◌else◌}
use fxa_lite.Exec.{Result, ok, raised}
use fxa_lite.Python.Strings.{◌<>◌, lower}
use fxa_lite.Oauth.Implicants.{ScopeError}
use fxa_lite.Oauth.Scopes.{ScopeSet, no_scopes, from_array}

abbrev pub oldsync_scope : String
oldsync_scope = "https://identity.mozilla.com/apps/oldsync"

abbrev pub session_scope : String
session_scope = "https://identity.mozilla.com/tokens/session"

abbrev pub ecosystem_telemetry_scope : String
ecosystem_telemetry_scope = "https://identity.mozilla.com/ids/ecosystem_telemetry"

abbrev pub webchannel_redirect : String
webchannel_redirect = "urn:ietf:wg:oauth:2.0:oob:oauth-redirect-webchannel"

abbrev pub firefox_desktop_client_id : String
firefox_desktop_client_id = "5882386c6d801776"

abbrev pub fenix_client_id : String
fenix_client_id = "a2270f727f45f648"

abbrev pub firefox_ios_client_id : String
firefox_ios_client_id = "1b1a3e44c54fbb58"

abbrev pub device_management_client_ids : List String
device_management_client_ids =
    firefox_desktop_client_id ∷ firefox_ios_client_id ∷ "3332a18d142636cb" ∷ fenix_client_id
    ∷ "3c49430b43dfba77" ∷ []

abbrev pub key_bearing_scopes : List String
key_bearing_scopes =
    oldsync_scope ∷ ecosystem_telemetry_scope ∷ "https://identity.thunderbird.net/apps/sync" ∷ []

-- `SERVICE_SCOPES.get(service)`
unfoldable pub service_scopes : String → Option (List String)
service_scopes service =
    if str_eq service "sync" then some (oldsync_scope ∷ "profile" ∷ []) else none

-- A set that is built when the module is loaded, from scopes that are all valid.
unfoldable pub at_import : Result ScopeError ScopeSet → ScopeSet
at_import (ok s) = s
at_import (raised e) = no_scopes

pub record Client : Type 0 where
  pub id : String
  pub name : String
  pub redirect_uris : List String
  pub allowed_scopes : ScopeSet
  pub trusted : Bool
  pub can_grant : Bool
  pub public_client : Bool
  pub image_uri : String

-- The default redirect: the first; a client has one at least.
unfoldable pub redirect_uri : Client → String
redirect_uri client = elim client.redirect_uris [ [] ↦ "" | uri ∷ _ ↦ uri ]

-- A dict that is built entry by entry: a later client replaces the one with its id.
unfoldable pub put_client : Client → List Client → List Client
put_client client [] = client ∷ []
put_client client (c ∷ clients) =
    let rest = put_client client clients in
    if str_eq c.id client.id then client ∷ clients else c ∷ rest

find_client : String → List Client → Option Client
find_client id [] = none
find_client id (c ∷ clients) = if str_eq c.id id then some c else find_client id clients

-- `Registry.get`
unfoldable pub registered : String → List Client → Option Client
unfolding find_client
registered client_id clients = find_client (lower client_id) clients

unfoldable pub browser : String → String → String → Client
unfolding at_import from_array
browser client_id name public_url = record {
  id = client_id;
  name = name;
  redirect_uris = webchannel_redirect ∷ (public_url <> ("/oauth/success/" <> client_id)) ∷ [];
  allowed_scopes =
      at_import (from_array (oldsync_scope ∷ session_scope ∷ ecosystem_telemetry_scope ∷ []));
  trusted = true;
  can_grant = true;
  public_client = true;
  image_uri = "";
}

unfoldable pub default_clients : String → List Client
unfolding browser
default_clients public_url =
    browser firefox_desktop_client_id "Firefox" public_url
    ∷ browser fenix_client_id "Fenix" public_url
    ∷ browser firefox_ios_client_id "Firefox for iOS" public_url
    ∷ []

put_clients : List Client → List Client → List Client
unfolding put_client
put_clients [] clients = clients
put_clients (c ∷ overrides) clients = put_clients overrides (put_client c clients)

-- `build`, on the entries of the config file as `_from_config` has made them
unfoldable pub build : String → List Client → List Client
unfolding default_clients put_clients
build public_url overrides = put_clients overrides (default_clients public_url)
