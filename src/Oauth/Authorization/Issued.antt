-- ===== src/Oauth/Authorization/Issued.antt =====
-- What the authorization route has checked and stored where it answers a code.
use Prim.Native.String.{String}
use fxa_lite.Prelude.{
  ℕ, ◌-◌, ◌*◌, ◌≡◌, refl, true, Option, none, some, List, arith, str_eq, eq_iff, is_some,
  Bool-cases, inl, inr, ◌∙◌, sym, ap, subst,
}
use fxa_lite.Exec.{Result, ok, raised, raise, reads, ◌>>=◌, pure}
use fxa_lite.Errors.{Error}
use fxa_lite.Python.Strings.{given}
use fxa_lite.Table.Laws.{fetch_one-append}
use fxa_lite.Oauth.Scopes.{contains, to_string}
use fxa_lite.Oauth.Clients.{Client, registered}
use fxa_lite.Oauth.Grant.{Grant, GrantRequest, claims_of, validate_requested_grant}
use fxa_lite.Oauth.Grant.Confined.{
  ceiling, validate_requested_grant-ceiling, validate_requested_grant-its,
}
use fxa_lite.Oauth.Scopes.Rows.{HasDerived}
use fxa_lite.Oauth.Authorization.Requested.{
  requested_scope-HasDerived, validate_requested_grant-HasDerived,
}
use fxa_lite.Oauth.Tokens.{Settings}
use fxa_lite.Accounts.Database.{Database, Db, OauthCode, SessionToken, last_auth_at}
use fxa_lite.Accounts.Database.Tokens.{
  oauth_code, is_insertable, create_oauth_code, delete_expired_oauth_codes,
}
use fxa_lite.Accounts.Credentials.{SessionCredentials}
use fxa_lite.Oauth.Authorization.{
  AuthorizationRequest, AuthorizationResponse, redirect_target, requested_scope,
  check_authentication_strength, check_pkce_parameters, issued_code, issue, authorized,
  oauth_authorization, redirect_with_code,
}

-- A check that an action starts with has passed where the action returns.
reads-ok :
    {A B : Type 0} (r : Result Error A) (f : A → Db B) (db : Database) (b : B)
    → ((reads (λ _. r) >>= f) db).0 ≡ ok b
    → (a : A) × (r ≡ ok a) × ((reads (λ _. r) >>= f) db ≡ f a db)
unfolding ◌>>=◌ reads
reads-ok (ok a) f db b h = (a, refl, refl)
reads-ok (raised e) f db b h = cc

-- An action that ends in an answer has gone through.
then_pure-ok :
    {A : Type 0} (m : Db (Unit {0})) (x b : A) (db : Database) (r : Result Error (Unit {0}))
    → (m db).0 ≡ r
    → ((m >>= λ _. pure x) db).0 ≡ ok b
    → ((m db).0 ≡ ok tt) × (b ≡ x) × (((m >>= λ _. pure x) db).1 ≡ (m db).1)
unfolding ◌>>=◌ pure
then_pure-ok m x b db (ok tt) e h = rw e (refl, ground arith, refl)
then_pure-ok m x b db (raised err) e h = absurd (ground arith)

-- A code that was created is found under its key.
create_oauth_code-stores :
    (code : OauthCode) (db : Database)
    → (create_oauth_code code db).0 ≡ ok tt
    → oauth_code code.code (create_oauth_code code db).1 ≡ some code
unfolding create_oauth_code is_insertable oauth_code
create_oauth_code-stores code db h =
    elim (Bool-cases (is_insertable code.uid (oauth_code code.code db) db)) [
      | inl e ↦ rw e (
          fetch_one-append (λ c. str_eq c.code code.code) db.oauth_codes code (ground arith)
            ((eq_iff code.code code.code).1 refl))
      | inr e ↦ absurd (ground arith)
    ]

-- A public client has a challenge, any other has none.
check_pkce_parameters-challenge :
    (client : Client) (payload : AuthorizationRequest)
    → check_pkce_parameters client payload ≡ ok tt
    → is_some (given payload.code_challenge) ≡ client.public_client
unfolding check_pkce_parameters
check_pkce_parameters-challenge client payload h = elim (Bool-cases client.public_client) [
  | inl e ↦ ground arith
  | inr e ↦ ground arith
]

-- What holds of a code that the route has stored.
pub record Issues (sha256_hex : String → String) (clients : List Client)
    (payload : AuthorizationRequest) (uid : String) (answer : AuthorizationResponse)
    (fresh : String) (after : Database) (client : Client) (g : Grant) (code : OauthCode)
    : Type 0 where
  pub its_client : registered payload.client_id clients ≡ some client
  pub within : contains (ceiling client) g.scope ≡ true
  pub derived_rows : HasDerived g.scope
  pub prints : answer.scope ≡ to_string g.scope
  pub challenged : is_some (given payload.code_challenge) ≡ client.public_client
  pub stored_as : oauth_code (sha256_hex fresh) after ≡ some code
  pub for_client : code.client_id ≡ client.id
  pub for_user : code.uid ≡ uid
  pub with_scope : code.scope ≡ answer.scope
  pub with_challenge : code.code_challenge ≡ payload.code_challenge
  pub with_keys : code.keys_jwe ≡ payload.keys_jwe

module _ (sha256_hex : String → String) (query_of : String → List (String × String))
    (with_query : String → List (String × String) → String) where
  issue-stores :
      (ttl : ℕ) (client : Client) (payload : AuthorizationRequest) (token : SessionToken)
      (uri fresh : String) (now : ℕ) (g : Grant) (db : Database) (answer : AuthorizationResponse)
      → (issue sha256_hex query_of with_query ttl client payload token uri fresh now g db).0
        ≡ ok answer
      → (answer.code ≡ fresh)
        × (answer.scope ≡ to_string g.scope)
        × (oauth_code
              (sha256_hex fresh)
              (issue sha256_hex query_of with_query ttl client payload token uri fresh now g db).1
            ≡ some (issued_code sha256_hex query_of with_query client payload token fresh now g))
  unfolding issue ◌>>=◌ pure
  issue-stores ttl client payload token uri fresh now g db answer h =
      let swept = (delete_expired_oauth_codes (now - ttl * 1000) db).1 in
      let code = issued_code sha256_hex query_of with_query client payload token fresh now g in
      let (made, same, state) =
        then_pure-ok (create_oauth_code code)
          (record {
            code = fresh;
            state = payload.state;
            redirect = redirect_with_code sha256_hex query_of with_query uri fresh payload.state;
            scope = to_string g.scope;
          })
          answer swept (create_oauth_code code swept).0 refl h in
      (
        ap (λ a. a.code) same,
        ap (λ a. a.scope) same,
        subst (λ d. oauth_code (sha256_hex fresh) d ≡ some code) (sym state)
            (create_oauth_code-stores code swept made),
      )

  authorized-Issues :
      (settings : Settings) (payload : AuthorizationRequest) (credentials : SessionCredentials)
      (fresh : String) (checked now : ℕ) (db : Database) (answer : AuthorizationResponse)
      (found : Option Client)
      → registered payload.client_id settings.clients ≡ found
      → (authorized sha256_hex query_of with_query settings payload credentials fresh checked now
          found db).0
        ≡ ok answer
      → (answer.code ≡ fresh)
        × (client : Client) × (g : Grant) × (code : OauthCode) × Issues sha256_hex settings.clients
            payload credentials.account.uid answer fresh
            (authorized sha256_hex query_of with_query settings payload credentials fresh checked
              now found db).1
            client
            g
            code
  unfolding authorized claims_of issued_code
  authorized-Issues settings payload credentials fresh checked now db answer none f h = cc
  authorized-Issues settings payload credentials fresh checked now db answer (some client) f h =
      let (uri, _, e1) = reads-ok (redirect_target client payload.redirect_uri) _ db answer h in
      let h1 = sym (ap (λ r. r.0) e1) ∙ h in
      let (scope, asked, e2) = reads-ok (requested_scope payload) _ db answer h1 in
      let h2 = sym (ap (λ r. r.0) e2) ∙ h1 in
      let (_, _, e3) =
        reads-ok (check_authentication_strength payload (last_auth_at credentials.token) checked) _
          db answer h2 in
      let h3 = sym (ap (λ r. r.0) e3) ∙ h2 in
      let (_, pkce, e4) = reads-ok (check_pkce_parameters client payload) _ db answer h3 in
      let h4 = sym (ap (λ r. r.0) e4) ∙ h3 in
      let claims = claims_of credentials.account credentials.token in
      let request : GrantRequest = record {
        scope = scope;
        access_type = payload.access_type;
        keys_jwe = payload.keys_jwe;
      } in
      let (g, valid, e5) =
        reads-ok (validate_requested_grant claims client request) _ db answer h4 in
      let h5 = sym (ap (λ r. r.0) e5) ∙ h4 in
      let whole = e1 ∙ e2 ∙ e3 ∙ e4 ∙ e5 in
      let (same, reports, stores) =
        issue-stores settings.code_ttl client payload credentials.token uri fresh now g db answer
          h5 in
      let (its_user, its_keys) = validate_requested_grant-its claims client request g valid in
      (
        same,
        client,
        g,
        issued_code sha256_hex query_of with_query client payload credentials.token fresh now g,
        record {
          its_client = f;
          within = validate_requested_grant-ceiling claims client request g valid;
          derived_rows =
              validate_requested_grant-HasDerived claims client request g
                (requested_scope-HasDerived payload scope asked) valid;
          prints = reports;
          challenged = check_pkce_parameters-challenge client payload pkce;
          stored_as = ap (λ r. oauth_code (sha256_hex fresh) r.1) whole ∙ stores;
          for_client = refl;
          for_user = its_user;
          with_scope = sym reports;
          with_challenge = refl;
          with_keys = refl;
        },
      )

  pub oauth_authorization-Issues :
      (settings : Settings) (payload : AuthorizationRequest) (credentials : SessionCredentials)
      (fresh : String) (checked now : ℕ) (db : Database) (answer : AuthorizationResponse)
      → (oauth_authorization sha256_hex query_of with_query settings payload credentials fresh
          checked now db).0
        ≡ ok answer
      → (answer.code ≡ fresh)
        × (client : Client) × (g : Grant) × (code : OauthCode) × Issues sha256_hex settings.clients
            payload credentials.account.uid answer fresh
            (oauth_authorization sha256_hex query_of with_query settings payload credentials fresh
              checked now db).1
            client
            g
            code
  unfolding oauth_authorization raise
  oauth_authorization-Issues settings payload credentials fresh checked now db answer h =
      elim (Bool-cases (str_eq payload.response_type "code")) [
        | inl e ↦ rw e (
            authorized-Issues settings payload credentials fresh checked now db answer
              (registered payload.client_id settings.clients) refl (ground arith))
        | inr e ↦ absurd (ground arith)
      ]
