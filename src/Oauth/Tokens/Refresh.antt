-- ===== src/Oauth/Tokens/Refresh.antt =====
-- What a refresh token renews.
use Prim.Native.String.{String}
use fxa_lite.Prelude.{◌≡◌, true, not, ◌⊎◌}
use fxa_lite.Exec.{ok}
use fxa_lite.Oauth.Scopes.{ScopeSet, from_string, contains, has_some_scope}
use fxa_lite.Oauth.Scopes.Difference.{Passes}
use fxa_lite.Oauth.Clients.{Client}
use fxa_lite.Oauth.Grant.{Grant, non_refreshable_scopes}
use fxa_lite.Accounts.Database.{Database, RefreshToken}
use fxa_lite.Oauth.Renewal.{renewable}

-- The scope is within what the token holds or, for a trusted client, what it may widen that to.
abbrev pub IsWithin : Client → ScopeSet → ScopeSet → Type 0
IsWithin client scope wanted =
    (contains scope wanted ≡ true)
    ⊎ ((client.trusted ≡ true) × (contains (renewable client scope) wanted ≡ true))

-- What a refresh token must be for a client to renew a grant with it.
pub record Renews (client : Client) (token : RefreshToken) (scope : ScopeSet) (g : Grant)
    : Type 0 where
  pub its_client : token.client_id ≡ client.id
  pub its_scope : from_string token.scope ≡ ok scope
  pub its_user : g.uid ≡ token.uid
  pub within : IsWithin client scope g.scope
  pub one_shot_left_out :
      Passes (λ is. not (has_some_scope is non_refreshable_scopes)) g.scope.scopes_to_implicants
