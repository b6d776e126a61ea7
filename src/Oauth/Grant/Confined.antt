-- ===== src/Oauth/Grant/Confined.antt =====
-- A grant stays inside what its client is registered for.
use fxa_lite.Prelude.{
  not, ◌&&◌, String, Bool, List, [], ◌∷◌, ◌||◌, map, str_eq, eq_iff, ◌≡◌, refl, true, false, arith,
  Bool-cases, inl, inr, subst, sym, ◌∙◌, if◌then◌else◌,
}
use fxa_lite.Exec.{Result, ok, raised}
use fxa_lite.Oauth.Implicants.{ScopeError}
use fxa_lite.Oauth.Scopes.{
  no_scopes, Dict, get, has, remove_scopes, enter, add_scope, add_where, filtered, has_some_scope,
  ScopeSet, from_array, values, is_empty, difference, union, contains,
}
use fxa_lite.Oauth.Scopes.Difference.{is_empty-difference, contains-filtered}
use fxa_lite.Python.Strings.{is_in}
use fxa_lite.Oauth.Scopes.Dict.{has-set_key}
use fxa_lite.Oauth.Scopes.Agreement.{has-remove_scopes}
use fxa_lite.Oauth.Clients.{Client, key_bearing_scopes}
use fxa_lite.Oauth.Grant.{
  SessionClaims, GrantRequest, Grant, untrusted_allowed_scopes, trusted_allowed_scopes, granted,
  bearing, trimmed, keys_checked, validate_requested_grant,
}

-- The scopes of a grant: of what the server allows the client.
abbrev pub ceiling : Client → ScopeSet
ceiling client =
    if client.trusted
    then union client.allowed_scopes trusted_allowed_scopes
    else untrusted_allowed_scopes

trimmed-contains :
    (claims : SessionClaims) (client : Client) (request : GrantRequest) (g : Grant)
    → (client.trusted ≡ false → contains untrusted_allowed_scopes request.scope ≡ true)
    → trimmed claims client request ≡ ok g
    → contains (ceiling client) g.scope ≡ true
unfolding trimmed granted
trimmed-contains claims client request g u e =
    ground
      (arith, contains-filtered request.scope (union client.allowed_scopes trusted_allowed_scopes))

trimmed-bearing :
    (claims : SessionClaims) (client : Client) (request : GrantRequest) (g : Grant)
    → trimmed claims client request ≡ ok g
    → g.key_bearing ≡ bearing (values request.scope)
unfolding trimmed granted
trimmed-bearing claims client request g e = ground arith

-- A grant comes only with the keys that the client's own list covers.
keys_checked-ok :
    (claims : SessionClaims) (client : Client) (request : GrantRequest) (g : Grant)
    (bearers : Result ScopeError ScopeSet)
    → keys_checked claims client request bearers ≡ ok g
    → (b : ScopeSet) × (bearers ≡ ok b)
      × (contains client.allowed_scopes b ≡ true)
      × (trimmed claims client request ≡ ok g)
unfolding keys_checked
keys_checked-ok claims client request g (raised e) h = cc
keys_checked-ok claims client request g (ok b) h =
    elim (Bool-cases (is_empty (difference b client.allowed_scopes))) [
      | inl e ↦ (b, refl, sym (is_empty-difference b client.allowed_scopes) ∙ e, ground arith)
      | inr e ↦ absurd (ground arith)
    ]

pub validate_requested_grant-trimmed :
    (claims : SessionClaims) (client : Client) (request : GrantRequest) (g : Grant)
    → validate_requested_grant claims client request ≡ ok g
    → trimmed claims client request ≡ ok g
unfolding validate_requested_grant
validate_requested_grant-trimmed claims client request g h =
    let (c, same, covered, t) =
      keys_checked-ok claims client request g (from_array (bearing (values request.scope)))
        (ground arith) in
    t

-- The scopes of a grant stay below the ceiling, whatever else holds of it.
pub validate_requested_grant-ceiling :
    (claims : SessionClaims) (client : Client) (request : GrantRequest) (g : Grant)
    → validate_requested_grant claims client request ≡ ok g
    → contains (ceiling client) g.scope ≡ true
unfolding validate_requested_grant
validate_requested_grant-ceiling claims client request g h =
    let (c, same, covered, t) =
      keys_checked-ok claims client request g (from_array (bearing (values request.scope)))
        (ground arith) in
    trimmed-contains claims client request g
      (λ u. ground (arith, is_empty-difference request.scope untrusted_allowed_scopes)) t

-- The grant is for the session's user, with the wrapped keys of the request.
pub validate_requested_grant-its :
    (claims : SessionClaims) (client : Client) (request : GrantRequest) (g : Grant)
    → validate_requested_grant claims client request ≡ ok g
    → (g.uid ≡ claims.uid) × (g.keys_jwe ≡ request.keys_jwe)
unfolding validate_requested_grant trimmed granted
validate_requested_grant-its claims client request g h =
    let (c, same, covered, t) =
      keys_checked-ok claims client request g (from_array (bearing (values request.scope)))
        (ground arith) in
    ground arith

-- Adding scopes adds no other scope.
has-add_scope :
    (v scope : String) (is : List String) (s : ScopeSet)
    → has v (add_scope scope is s).scopes_to_implicants ≡ true
    → str_eq scope v || has v s.scopes_to_implicants ≡ true
unfolding add_scope enter
has-add_scope v scope is s h =
    let others = get scope s.implicants_to_scopes in
    ground (
      arith,
      has-set_key scope v is (remove_scopes others s).scopes_to_implicants,
      has-remove_scopes v others s,
    )

has-add_where :
    (v : String) (test : List String → Bool) (d : Dict) (s : ScopeSet)
    → has v (add_where test d s).scopes_to_implicants ≡ true
    → has v d || has v s.scopes_to_implicants ≡ true
unfolding add_where has
has-add_where v test [] s h = h
has-add_where v test ((scope, is) ∷ d) s h = elim (Bool-cases (test is)) [
  | inl e ↦
      ground (arith, has-add_where v test d (add_scope scope is s), has-add_scope v scope is s)
  | inr e ↦ ground (arith, has-add_where v test d s)
]

is_in-keys : (v : String) (d : Dict) → is_in v (map (λ r. r.0) d) ≡ has v d
unfolding is_in has
is_in-keys v [] = refl
is_in-keys v ((k, is) ∷ d) = ground (arith, is_in-keys v d)

-- A scope that the grant has was asked for.
trimmed-has :
    (claims : SessionClaims) (client : Client) (request : GrantRequest) (g : Grant) (v : String)
    → trimmed claims client request ≡ ok g
    → is_in v (values g.scope) ≡ true
    → is_in v (values request.scope) ≡ true
unfolding trimmed granted values filtered has
trimmed-has claims client request g v t h =
    let allowed = union client.allowed_scopes trusted_allowed_scopes in
    ground (
      arith,
      is_in-keys v g.scope.scopes_to_implicants,
      is_in-keys v request.scope.scopes_to_implicants,
      has-add_where v (λ is. has_some_scope is allowed) request.scope.scopes_to_implicants
          no_scopes,
    )

is_in-bearing :
    (v : String) (vs : List String)
    → is_in v vs ≡ true
    → is_in v key_bearing_scopes ≡ true
    → is_in v (bearing vs) ≡ true
unfolding is_in bearing
is_in-bearing v [] h k = h
is_in-bearing v (w ∷ vs) h k = elim (Bool-cases (str_eq w v)) [
  | inl e ↦
      let same : w ≡ v = (eq_iff w v).0 e in
      let bears : is_in w key_bearing_scopes ≡ true =
        subst (λ x. is_in x key_bearing_scopes ≡ true) (sym same) k in
      ground (arith, bears)
  | inr e ↦ ground (arith, is_in-bearing v vs)
]

-- Where `validate_requested_grant` returns a grant, its scopes are all implied by what the client
-- may have: its own list and the trusted handful for a trusted client, the untrusted handful for
-- any other. And every scope of the grant that carries a key is on its list of such scopes, which,
-- as the set that `from_array` makes of it, is implied by the client's own list, trusted client or
-- not.
pub validate_requested_grant-confined :
    (claims : SessionClaims) (client : Client) (request : GrantRequest) (g : Grant) (b : ScopeSet)
    (v : String)
    → validate_requested_grant claims client request ≡ ok g
    → from_array g.key_bearing ≡ ok b
    → (contains (ceiling client) g.scope ≡ true)
      × (is_in v (values g.scope) && is_in v key_bearing_scopes && not (is_in v g.key_bearing)
          ≡ false)
      × (contains client.allowed_scopes b ≡ true)
unfolding validate_requested_grant
validate_requested_grant-confined claims client request g b v h k =
    let (c, same, covered, t) =
      keys_checked-ok claims client request g (from_array (bearing (values request.scope)))
        (ground arith) in
    let bearers = trimmed-bearing claims client request g t in
    let here : b ≡ c = ground arith in
    let listed : is_in v (values g.scope) ≡ true
        → is_in v key_bearing_scopes ≡ true
        → is_in v g.key_bearing ≡ true =
      λ member bears.
        subst (λ x. is_in v x ≡ true) (sym bearers)
          (is_in-bearing v (values request.scope) (trimmed-has claims client request g v t member)
            bears) in
    (
      validate_requested_grant-ceiling claims client request g h,
      ground (arith, listed),
      subst (λ x. contains client.allowed_scopes x ≡ true) (sym here) covered,
    )
