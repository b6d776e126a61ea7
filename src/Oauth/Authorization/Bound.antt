-- ===== src/Oauth/Authorization/Bound.antt =====
-- A code of the authorization route is bound to its client, its user and its challenge.
use Prim.Native.String.{String}
use fxa_lite.Prelude.{true, some_injective, ℕ, ◌≡◌, some, List, is_some, ◌∙◌, sym, ap, subst}
use fxa_lite.Exec.{ok}
use fxa_lite.Python.Strings.{given}
use fxa_lite.Oauth.Scopes.{from_string, contains}
use fxa_lite.Oauth.Scopes.Printed.{contains-to_string}
use fxa_lite.Oauth.Clients.{Client, registered}
use fxa_lite.Oauth.Grant.{Grant}
use fxa_lite.Oauth.Grant.Confined.{ceiling}
use fxa_lite.Oauth.Codes.{TokenRequest, authorization_code_grant}
use fxa_lite.Oauth.Codes.Bound.{Answers, authorization_code_grant-Redeems}
use fxa_lite.Oauth.Tokens.{Settings}
use fxa_lite.Accounts.Database.{Database}
use fxa_lite.Accounts.Database.Tokens.{oauth_code}
use fxa_lite.Accounts.Credentials.{SessionCredentials}
use fxa_lite.Oauth.Authorization.{AuthorizationRequest, AuthorizationResponse, oauth_authorization}
use fxa_lite.Oauth.Authorization.Issued.{oauth_authorization-Issues}

-- Where the authorization route answers a code to a session, and the code is then redeemed for a
-- grant on the tables that the route has left: the redeeming client is the registered one that the
-- session authorized; the grant is for the session's account, with the wrapped keys of the request,
-- its scope is what the text that the route reported reads as and is implied by what that client may
-- have; the verifier answers the challenge of the authorization request, and there is a challenge
-- exactly if the client is public.
pub authorization_code_grant-oauth_authorization :
    (sha256_hex s256 : String → String) (query_of : String → List (String × String))
    (with_query : String → List (String × String) → String) (settings : Settings)
    (payload : AuthorizationRequest) (credentials : SessionCredentials) (fresh : String)
    (checked now : ℕ) (db : Database) (answer : AuthorizationResponse) (redeemer : Client)
    (request : TokenRequest) (ttl later : ℕ) (g : Grant)
    → (oauth_authorization sha256_hex query_of with_query settings payload credentials fresh checked
        now db).0
      ≡ ok answer
    → request.code ≡ some answer.code
    → (authorization_code_grant sha256_hex s256 redeemer request ttl later
        (oauth_authorization sha256_hex query_of with_query settings payload credentials fresh
          checked now db).1).0
      ≡ ok g
    → (client : Client) × (registered payload.client_id settings.clients ≡ some client)
      × (client.id ≡ redeemer.id)
      × (g.uid ≡ credentials.account.uid)
      × (g.keys_jwe ≡ payload.keys_jwe)
      × (from_string answer.scope ≡ ok g.scope)
      × (contains (ceiling client) g.scope ≡ true)
      × (is_some (given payload.code_challenge) ≡ client.public_client)
      × Answers s256 (given payload.code_challenge) (given request.code_verifier)
authorization_code_grant-oauth_authorization sha256_hex s256 query_of with_query settings payload
      credentials fresh checked now db answer redeemer request ttl later g h r again =
    let after =
      (oauth_authorization sha256_hex query_of with_query settings payload credentials fresh checked
        now db).1 in
    let (same, client, allowed, code, issued) =
      oauth_authorization-Issues sha256_hex query_of with_query settings payload credentials fresh
        checked now db answer h in
    let (presented, its, found, stored, redeems, _) =
      authorization_code_grant-Redeems sha256_hex s256 redeemer request ttl later after g again in
    let key : presented ≡ fresh = some_injective (sym its ∙ r) ∙ same in
    let code_is : found ≡ code =
      some_injective
        (sym stored ∙ ap (λ k. oauth_code (sha256_hex k) after) key ∙ issued.stored_as) in
    let read : from_string answer.scope ≡ ok g.scope =
      sym (ap (λ c. from_string c.scope) code_is ∙ ap from_string issued.with_scope)
      ∙ redeems.its_scope in
    (
      client,
      issued.its_client,
      sym issued.for_client ∙ sym (ap (λ c. c.client_id) code_is) ∙ redeems.its_client,
      redeems.its_user ∙ ap (λ c. c.uid) code_is ∙ issued.for_user,
      redeems.its_keys ∙ ap (λ c. c.keys_jwe) code_is ∙ issued.with_keys,
      read,
      contains-to_string (ceiling client) allowed.scope g.scope issued.derived_rows issued.within
          (ap from_string (sym issued.prints) ∙ read),
      issued.challenged,
      subst (λ c. Answers s256 (given c) (given request.code_verifier))
          (ap (λ c. c.code_challenge) code_is ∙ issued.with_challenge) redeems.verified,
    )
