-- ===== src/Oauth/Scopes/Irredundant.antt =====
-- No scope of a scope set implies another one of it.
use Prim.Native.String.{String}
use fxa_lite.Prelude.{
  Bool, true, not, ◌≡◌, refl, List, [], ◌∷◌, arith, eq_iff, if◌then◌else◌, Bool-cases, inl, inr,
  All, subst,
}
use fxa_lite.Exec.{Result, ok, raised}
use fxa_lite.Python.Strings.{is_in, split}
use fxa_lite.Oauth.Implicants.{ScopeError, implicants}
use fxa_lite.Oauth.Implicants.Own.{Has, implicants-Has}
use fxa_lite.Oauth.Scopes.{
  Dict, ScopeSet, no_scopes, get, has, has_some_scope, remove_scopes, enter, add_scope, add_where,
  add_rows, derived, set_of, with_implicants, prepend, from_array, from_string, nonempty, filtered,
  difference, union, has_some, contains, contains_rows,
}
use fxa_lite.Oauth.Scopes.Dict.{get-set_key, has-set_key, has_some-false}
use fxa_lite.Oauth.Scopes.Rows.{add_scope-All}
use fxa_lite.Oauth.Scopes.Agreement.{
  Agrees, Agrees-no_scopes, add_scope-Agrees, get-remove_scopes, has-remove_scopes,
}

abbrev pub IsIrredundant : ScopeSet → Type 0
IsIrredundant s =
    (x t : String)
    → has x s.scopes_to_implicants ≡ true
    → is_in x (get t s.scopes_to_implicants) ≡ true
    → x ≡ t

-- A scope stands among its own implicants.
abbrev pub IsOwn : String × List String → Type 0
IsOwn row = is_in row.0 row.1 ≡ true

pub record IsScopeSet (s : ScopeSet) : Type 0 where
  pub agrees : Agrees s
  pub irredundant : IsIrredundant s
  pub own : All IsOwn s.scopes_to_implicants

pub IsScopeSet-no_scopes : IsScopeSet no_scopes
unfolding has
IsScopeSet-no_scopes = record {
  agrees = Agrees-no_scopes;
  irredundant = λ x t h k. ground arith;
  own = tt;
}

add_scope-IsIrredundant :
    (scope : String) (is : List String) (s : ScopeSet)
    → is_in scope is ≡ true
    → Agrees s
    → IsIrredundant s
    → IsIrredundant (add_scope scope is s)
unfolding add_scope has_some_scope enter is_in
add_scope-IsIrredundant scope is s own agrees h x t =
    let others = get scope s.implicants_to_scopes in
    let rows = (remove_scopes others s).scopes_to_implicants in
    ground (
      arith,
      eq_iff scope x,
      eq_iff scope t,
      h x t,
      agrees scope t,
      agrees t scope,
      has-set_key scope x is rows,
      get-set_key scope t is rows,
      has-remove_scopes x others s,
      get-remove_scopes t others s,
      has_some-false x is s.scopes_to_implicants,
    )

pub add_scope-IsScopeSet :
    (scope : String) (is : List String) (s : ScopeSet)
    → is_in scope is ≡ true
    → IsScopeSet s
    → IsScopeSet (add_scope scope is s)
add_scope-IsScopeSet scope is s own h = record {
  agrees = add_scope-Agrees scope is s own h.agrees;
  irredundant = add_scope-IsIrredundant scope is s own h.agrees h.irredundant;
  own = add_scope-All IsOwn scope is s own h.own;
}

pub add_rows-IsScopeSet :
    (d : Dict) (s : ScopeSet) → All IsOwn d → IsScopeSet s → IsScopeSet (add_rows d s)
unfolding add_rows
add_rows-IsScopeSet [] s own h = h
add_rows-IsScopeSet ((scope, is) ∷ d) s own h =
    add_rows-IsScopeSet d (add_scope scope is s) own.1 (add_scope-IsScopeSet scope is s own.0 h)

-- Each derived row has its scope among its implicants.
abbrev OwnRows : Result ScopeError Dict → Type 0
OwnRows (ok d) = All IsOwn d
OwnRows (raised e) = Unit

with_implicants-OwnRows :
    (scope : String) (r : Result ScopeError (List String)) (rest : Result ScopeError Dict)
    → Has scope r
    → OwnRows rest
    → OwnRows (with_implicants scope r rest)
unfolding with_implicants prepend
with_implicants-OwnRows scope (raised e) rest h k = tt
with_implicants-OwnRows scope (ok is) (raised e) h k = tt
with_implicants-OwnRows scope (ok is) (ok d) h k = (h, k)

derived-OwnRows : (scopes : List String) → OwnRows (derived scopes)
unfolding derived
derived-OwnRows [] = tt
derived-OwnRows (scope ∷ scopes) =
    with_implicants-OwnRows scope (implicants scope) (derived scopes) (implicants-Has scope)
      (derived-OwnRows scopes)

set_of-IsScopeSet :
    (r : Result ScopeError Dict) (s : ScopeSet) → OwnRows r → set_of r ≡ ok s → IsScopeSet s
unfolding set_of
set_of-IsScopeSet (raised e) s own h = cc
set_of-IsScopeSet (ok d) s own h =
    let same : add_rows d no_scopes ≡ s = ground arith in
    subst IsScopeSet same (add_rows-IsScopeSet d no_scopes own IsScopeSet-no_scopes)

-- A set that is built from any scopes, if they are all valid, is well formed: its two dicts hold
-- the same pairs, no scope of it implies another one of it, and each implies itself.
pub from_array-IsScopeSet :
    (scopes : List String) (s : ScopeSet) → from_array scopes ≡ ok s → IsScopeSet s
unfolding from_array
from_array-IsScopeSet scopes s = set_of-IsScopeSet (derived scopes) s (derived-OwnRows scopes)

pub from_string-IsScopeSet :
    (value : String) (s : ScopeSet) → from_string value ≡ ok s → IsScopeSet s
unfolding from_string
from_string-IsScopeSet value s = from_array-IsScopeSet (nonempty (split b' ' value)) s

-- So are the sets that the operations make of well-formed ones.
add_where-IsScopeSet :
    (test : List String → Bool) (d : Dict) (s : ScopeSet)
    → All IsOwn d
    → IsScopeSet s
    → IsScopeSet (add_where test d s)
unfolding add_where
add_where-IsScopeSet test [] s own h = h
add_where-IsScopeSet test ((scope, is) ∷ d) s own h =
    let added = add_scope-IsScopeSet scope is s own.0 h in
    add_where-IsScopeSet test d (if test is then add_scope scope is s else s) own.1
      (elim (Bool-cases (test is)) [ inl e ↦ rw e added | inr e ↦ rw e h ])

-- The operations on well-formed sets make well-formed sets: `filtered`, `difference` and `union`.
pub operations-IsScopeSet :
    (s t : ScopeSet)
    → IsScopeSet s
    → IsScopeSet t
    → IsScopeSet (filtered s t) × IsScopeSet (difference s t) × IsScopeSet (union s t)
unfolding filtered difference union
operations-IsScopeSet s t h k = (
  add_where-IsScopeSet (λ is. has_some_scope is t) s.scopes_to_implicants no_scopes h.own
      IsScopeSet-no_scopes,
  add_where-IsScopeSet (λ is. not (has_some_scope is t)) s.scopes_to_implicants no_scopes h.own
      IsScopeSet-no_scopes,
  add_rows-IsScopeSet t.scopes_to_implicants (add_rows s.scopes_to_implicants no_scopes) k.own
      (add_rows-IsScopeSet s.scopes_to_implicants no_scopes h.own IsScopeSet-no_scopes),
)

has_some_own :
    (scope : String) (is : List String) (d : Dict)
    → is_in scope is ≡ true
    → has scope d ≡ true
    → has_some is d ≡ true
unfolding has_some is_in
has_some_own scope [] d h k = ground arith
has_some_own scope (i ∷ is) d h k = ground (arith, eq_iff i scope, has_some_own scope is d)

contains_own :
    (s : ScopeSet) (d : Dict)
    → All IsOwn d
    → All (λ r. has r.0 s.scopes_to_implicants ≡ true) d
    → contains_rows s d ≡ true
unfolding contains_rows has_some_scope
contains_own s [] own h = refl
contains_own s ((scope, is) ∷ d) own h =
    ground
      (arith, has_some_own scope is s.scopes_to_implicants own.0 h.0, contains_own s d own.1 h.1)

module _ (key : String) (is : List String) (d : Dict) where
  has_more :
      (e : Dict) → All (λ r. has r.0 d ≡ true) e → All (λ r. has r.0 ((key, is) ∷ d) ≡ true) e
  unfolding has
  has_more [] h = tt
  has_more (r ∷ e) h = (ground arith, has_more e h.1)

has_all : (d : Dict) → All (λ r. has r.0 d ≡ true) d
unfolding has
has_all [] = tt
has_all ((k, is) ∷ d) = (ground (arith, eq_iff k k), has_more k is d d (has_all d))

-- A well-formed set contains itself.
pub contains_refl : (s : ScopeSet) → IsScopeSet s → contains s s ≡ true
unfolding contains
contains_refl s h = contains_own s s.scopes_to_implicants h.own (has_all s.scopes_to_implicants)

-- In a set that is built from any list of scopes, if they are all valid, no scope is implied by
-- another one of the set.
pub from_array_irredundant :
    (scopes : List String) (s : ScopeSet) (x t : String)
    → from_array scopes ≡ ok s
    → has x s.scopes_to_implicants ≡ true
    → is_in x (get t s.scopes_to_implicants) ≡ true
    → x ≡ t
from_array_irredundant scopes s x t h = (from_array-IsScopeSet scopes s h).irredundant x t
