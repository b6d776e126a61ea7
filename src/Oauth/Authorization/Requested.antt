-- ===== src/Oauth/Authorization/Requested.antt =====
-- The scopes that the authorization route asks for, and those of the grant that it makes of them.
use Prim.Native.String.{String}
use fxa_lite.Prelude.{
  ◌&&◌, ◌⊎◌, ◌≡◌, sym, Option, none, some, List, ◌++◌, [], ◌∷◌, not, arith, is_some, if◌then◌else◌,
  subst, Bool-cases, inl, inr,
}
use fxa_lite.Exec.{Result, ok, raised}
use fxa_lite.Python.Strings.{given, is_in, lower}
use fxa_lite.Oauth.Implicants.{ScopeError, invalid_scope, value_error}
use fxa_lite.Oauth.Scopes.{ScopeSet, from_array, from_string, filtered, union}
use fxa_lite.Oauth.Scopes.Rows.{
  HasDerived, from_array-HasDerived, from_string-HasDerived, filtered-HasDerived,
}
use fxa_lite.Oauth.Clients.{Client, oldsync_scope, service_scopes}
use fxa_lite.Oauth.Renewal.{parse_scope, parsed, stored}
use fxa_lite.Oauth.Grant.{
  SessionClaims, GrantRequest, Grant, trusted_allowed_scopes, granted, trimmed,
  validate_requested_grant,
}
use fxa_lite.Oauth.Grant.Confined.{validate_requested_grant-trimmed}
use fxa_lite.Oauth.Authorization.{
  AuthorizationRequest, scope_or_service, service_scope, resolved_scope, requested_scope,
}

stored-ok : (r : Result ScopeError ScopeSet) (s : ScopeSet) → stored r ≡ ok s → r ≡ ok s
unfolding stored
stored-ok (ok t) s h = ground arith
stored-ok (raised e) s h = cc

parsed-ok :
    (field : String) (r : Result ScopeError ScopeSet) (s : ScopeSet)
    → parsed field r ≡ ok s
    → r ≡ ok s
unfolding parsed
parsed-ok field (ok t) s h = ground arith
parsed-ok field (raised (invalid_scope value)) s h = cc
parsed-ok field (raised value_error) s h = cc

resolved_scope-HasDerived :
    (found : Option (List String)) (keys_jwe : Option String) (s : ScopeSet)
    → resolved_scope found keys_jwe ≡ ok s
    → HasDerived s
unfolding resolved_scope
resolved_scope-HasDerived none keys_jwe s h = cc
resolved_scope-HasDerived (some vs) keys_jwe s h =
    let asked =
      if is_some keys_jwe && not (is_in oldsync_scope vs) then vs ++ (oldsync_scope ∷ []) else vs in
    from_array-HasDerived asked s (stored-ok (from_array asked) s h)

service_scope-HasDerived :
    (service keys_jwe : Option String) (s : ScopeSet)
    → service_scope service keys_jwe ≡ ok s
    → HasDerived s
unfolding service_scope
service_scope-HasDerived none keys_jwe s h = cc
service_scope-HasDerived (some service) keys_jwe s h =
    resolved_scope-HasDerived (service_scopes (lower service)) keys_jwe s h

scope_or_service-HasDerived :
    (scope service keys_jwe : Option String) (s : ScopeSet)
    → scope_or_service scope service keys_jwe ≡ ok s
    → HasDerived s
unfolding scope_or_service parse_scope
scope_or_service-HasDerived (some scope) service keys_jwe s h =
    from_string-HasDerived scope s (parsed-ok "scope" (from_string scope) s h)
scope_or_service-HasDerived none service keys_jwe s h =
    service_scope-HasDerived service keys_jwe s h

pub requested_scope-HasDerived :
    (payload : AuthorizationRequest) (s : ScopeSet) → requested_scope payload ≡ ok s → HasDerived s
unfolding requested_scope
requested_scope-HasDerived payload s h =
    scope_or_service-HasDerived (given payload.scope) (given payload.service)
      (given payload.keys_jwe) s h

trimmed-scope :
    (claims : SessionClaims) (client : Client) (request : GrantRequest) (g : Grant)
    → trimmed claims client request ≡ ok g
    → (g.scope ≡ filtered request.scope (union client.allowed_scopes trusted_allowed_scopes))
      ⊎ (g.scope ≡ request.scope)
unfolding trimmed granted
trimmed-scope claims client request g h = elim (Bool-cases client.trusted) [
  | inl e ↦ inl (ground arith)
  | inr e ↦ inr (ground arith)
]

-- The rows of the grant's scope are rows of the request's.
pub validate_requested_grant-HasDerived :
    (claims : SessionClaims) (client : Client) (request : GrantRequest) (g : Grant)
    → HasDerived request.scope
    → validate_requested_grant claims client request ≡ ok g
    → HasDerived g.scope
validate_requested_grant-HasDerived claims client request g d h =
    let allowed = union client.allowed_scopes trusted_allowed_scopes in
    elim (trimmed-scope claims client request g
      (validate_requested_grant-trimmed claims client request g h)) [
        | inl e ↦ subst HasDerived (sym e) (filtered-HasDerived request.scope allowed d)
        | inr e ↦ subst HasDerived (sym e) d
      ]
