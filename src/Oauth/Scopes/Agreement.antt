-- ===== src/Oauth/Scopes/Agreement.antt =====
-- The two dicts of a scope set hold the same pairs.
use Prim.Native.String.{String}
use fxa_lite.Prelude.{
  true, false, not, ◌&&◌, ◌≡◌, refl, List, [], ◌∷◌, arith, eq_iff, if◌then◌else◌, Bool-cases, inl,
  inr,
}
use fxa_lite.Python.Strings.{is_in}
use fxa_lite.Oauth.Scopes.{
  ScopeSet, no_scopes, get, has, has_some_scope, remove_scope, remove_scopes, enter, add_scope,
}
use fxa_lite.Oauth.Scopes.Dict.{
  get-delete_key, has-delete_key, get-set_key, is_in-discard_all, is_in-add_all, get-missing,
  has_some-false,
}

abbrev pub Agrees : ScopeSet → Type 0
Agrees s =
    (x t : String) → is_in t (get x s.implicants_to_scopes) ≡ is_in x (get t s.scopes_to_implicants)

pub Agrees-no_scopes : Agrees no_scopes
unfolding get is_in
Agrees-no_scopes x t = refl

remove_scope-Agrees : (scope : String) (s : ScopeSet) → Agrees s → Agrees (remove_scope scope s)
unfolding remove_scope is_in
remove_scope-Agrees scope s h x t = ground (
  arith,
  eq_iff scope t,
  h x t,
  is_in-discard_all scope x t (get scope s.scopes_to_implicants) s.implicants_to_scopes,
  get-delete_key scope t s.scopes_to_implicants,
)

module _ (t : String) where
  pub get-remove_scopes :
      (scopes : List String) (s : ScopeSet)
      → get t (remove_scopes scopes s).scopes_to_implicants
        ≡ (if is_in t scopes then [] else get t s.scopes_to_implicants)
  unfolding remove_scopes is_in
  get-remove_scopes [] s = refl
  get-remove_scopes (scope ∷ scopes) s = ground (
    arith,
    get-remove_scopes scopes (remove_scope scope s),
    get-delete_key scope t s.scopes_to_implicants,
  )

  pub has-remove_scopes :
      (scopes : List String) (s : ScopeSet)
      → has t (remove_scopes scopes s).scopes_to_implicants
        ≡ not (is_in t scopes) && has t s.scopes_to_implicants
  unfolding remove_scopes is_in
  has-remove_scopes [] s = ground arith
  has-remove_scopes (scope ∷ scopes) s = ground (
    arith,
    has-remove_scopes scopes (remove_scope scope s),
    has-delete_key scope t s.scopes_to_implicants,
  )

pub remove_scopes-Agrees :
    (scopes : List String) (s : ScopeSet) → Agrees s → Agrees (remove_scopes scopes s)
unfolding remove_scopes
remove_scopes-Agrees [] s h = h
remove_scopes-Agrees (scope ∷ scopes) s h =
    remove_scopes-Agrees scopes (remove_scope scope s) (remove_scope-Agrees scope s h)

enter-Agrees :
    (scope : String) (is : List String) (s : ScopeSet)
    → has scope s.scopes_to_implicants ≡ false
    → Agrees s
    → Agrees (enter scope is s)
unfolding enter is_in
enter-Agrees scope is s new h x t = ground (
  arith,
  eq_iff scope t,
  h x t,
  get-missing scope s.scopes_to_implicants new,
  is_in-add_all scope x t is s.implicants_to_scopes,
  get-set_key scope t is s.scopes_to_implicants,
)

-- A scope that is added stands among its own implicants.
pub add_scope-Agrees :
    (scope : String) (is : List String) (s : ScopeSet)
    → is_in scope is ≡ true
    → Agrees s
    → Agrees (add_scope scope is s)
unfolding add_scope has_some_scope
add_scope-Agrees scope is s own h = elim (Bool-cases (has_some_scope is s)) [
  | inl e ↦ rw e h
  | inr e ↦
      let others = get scope s.implicants_to_scopes in
      let new : has scope (remove_scopes others s).scopes_to_implicants ≡ false = ground (
        arith,
        has-remove_scopes scope others s,
        has_some-false scope is s.scopes_to_implicants e own,
      ) in
      rw e (enter-Agrees scope is (remove_scopes others s) new (remove_scopes-Agrees others s h))
]
