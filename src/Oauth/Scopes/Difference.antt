-- ===== src/Oauth/Scopes/Difference.antt =====
-- What `difference` and `filtered` keep of a scope set.
use Prim.Native.String.{String}
use fxa_lite.Prelude.{
  Bool, true, false, not, ◌≡◌, refl, List, [], ◌∷◌, arith, str_eq, if◌then◌else◌, Bool-cases, inl,
  inr, All,
}
use fxa_lite.Oauth.Scopes.{
  Dict, ScopeSet, no_scopes, get, has, set_key, delete_key, has_some, has_some_scope, no_keys,
  remove_scope, remove_scopes, enter, add_scope, add_where, is_empty, contains, contains_rows,
  difference, filtered,
}

has_some-none : (is : List String) → has_some is [] ≡ false
unfolding has_some has
has_some-none [] = refl
has_some-none (i ∷ is) = has_some-none is

no_keys-set_key : (k : String) (is : List String) (d : Dict) → no_keys (set_key k is d) ≡ false
unfolding no_keys set_key
no_keys-set_key k is [] = refl
no_keys-set_key k is ((j, vs) ∷ d) = ground arith

has_some-no_keys : (is : List String) (d : Dict) → has_some is d ≡ true → no_keys d ≡ false
unfolding no_keys
has_some-no_keys is [] h = ground (arith, has_some-none is)
has_some-no_keys is (r ∷ d) h = refl

is_empty-add_scope :
    (scope : String) (is : List String) (s : ScopeSet) → is_empty (add_scope scope is s) ≡ false
unfolding is_empty add_scope has_some_scope enter
is_empty-add_scope scope is s = ground (
  arith,
  has_some-no_keys is s.scopes_to_implicants,
  no_keys-set_key scope is
      (remove_scopes (get scope s.implicants_to_scopes) s).scopes_to_implicants,
)

is_empty-add_where :
    (test : List String → Bool) (d : Dict) (s : ScopeSet)
    → is_empty s ≡ false
    → is_empty (add_where test d s) ≡ false
unfolding add_where
is_empty-add_where test [] s h = h
is_empty-add_where test ((scope, is) ∷ d) s h =
    is_empty-add_where test d (if test is then add_scope scope is s else s)
      (ground (arith, is_empty-add_scope scope is s))

is_empty-difference_rows :
    (other : ScopeSet) (d : Dict)
    → is_empty (add_where (λ is. not (has_some_scope is other)) d no_scopes) ≡ contains_rows other d
unfolding add_where contains_rows is_empty no_keys
is_empty-difference_rows other [] = refl
is_empty-difference_rows other ((scope, is) ∷ d) = ground (
  arith,
  is_empty-difference_rows other d,
  is_empty-add_where (λ js. not (has_some_scope js other)) d (add_scope scope is no_scopes)
      (is_empty-add_scope scope is no_scopes),
)

-- The difference of two scope sets is empty exactly if the second contains the first.
pub is_empty-difference : (s other : ScopeSet) → is_empty (difference s other) ≡ contains other s
unfolding difference contains
is_empty-difference s other = is_empty-difference_rows other s.scopes_to_implicants

-- The rows of a dict pass a test of their implicants.
abbrev pub Passes : (List String → Bool) → Dict → Type 0
Passes test d = All (λ r. test r.1 ≡ true) d

module _ (test : List String → Bool) where
  set_key-Passes :
      (k : String) (is : List String) (d : Dict)
      → test is ≡ true
      → Passes test d
      → Passes test (set_key k is d)
  unfolding set_key
  set_key-Passes k is [] p h = (p, tt)
  set_key-Passes k is ((j, vs) ∷ d) p h = elim (Bool-cases (str_eq j k)) [
    | inl e ↦ rw e (p, h.1)
    | inr e ↦ rw e (h.0, set_key-Passes k is d p h.1)
  ]

  delete_key-Passes : (k : String) (d : Dict) → Passes test d → Passes test (delete_key k d)
  unfolding delete_key
  delete_key-Passes k [] h = tt
  delete_key-Passes k ((j, vs) ∷ d) h = ground (arith, delete_key-Passes k d h.1)

  remove_scopes-Passes :
      (scopes : List String) (s : ScopeSet)
      → Passes test s.scopes_to_implicants
      → Passes test (remove_scopes scopes s).scopes_to_implicants
  unfolding remove_scopes remove_scope
  remove_scopes-Passes [] s h = h
  remove_scopes-Passes (scope ∷ scopes) s h =
      remove_scopes-Passes scopes (remove_scope scope s)
        (delete_key-Passes scope s.scopes_to_implicants h)

  add_scope-Passes :
      (scope : String) (is : List String) (s : ScopeSet)
      → test is ≡ true
      → Passes test s.scopes_to_implicants
      → Passes test (add_scope scope is s).scopes_to_implicants
  unfolding add_scope enter
  add_scope-Passes scope is s p h =
      let others = get scope s.implicants_to_scopes in
      let kept = remove_scopes-Passes others s h in
      let added = set_key-Passes scope is (remove_scopes others s).scopes_to_implicants p kept in
      ground (arith, h, added)

-- A loop that adds some rows keeps a test that they and the set pass.
pub add_where-Passes :
    (test keep : List String → Bool) (d : Dict) (s : ScopeSet)
    → All (λ r. test r.1 ≡ true → keep r.1 ≡ true) d
    → Passes keep s.scopes_to_implicants
    → Passes keep (add_where test d s).scopes_to_implicants
unfolding add_where
add_where-Passes test keep [] s k h = h
add_where-Passes test keep ((scope, is) ∷ d) s k h = elim (Bool-cases (test is)) [
  | inl e ↦
      rw (add_where, e)
        (add_where-Passes test keep d (add_scope scope is s) k.1
          (add_scope-Passes keep scope is s (k.0 e) h))
  | inr e ↦ rw (add_where, e) (add_where-Passes test keep d s k.1 h)
]

pub contains_rows_of :
    (s : ScopeSet) (d : Dict) → Passes (λ is. has_some_scope is s) d → contains_rows s d ≡ true
unfolding contains_rows
contains_rows_of s [] h = refl
contains_rows_of s (r ∷ d) h = ground (arith, contains_rows_of s d h.1)

pub Passes-contains_rows :
    (s : ScopeSet) (d : Dict) → contains_rows s d ≡ true → Passes (λ is. has_some_scope is s) d
unfolding contains_rows
Passes-contains_rows s [] h = tt
Passes-contains_rows s (r ∷ d) h = (ground arith, Passes-contains_rows s d (ground arith))

all_rows : (test : List String → Bool) (d : Dict) → All (λ r. test r.1 ≡ true → test r.1 ≡ true) d
all_rows test [] = tt
all_rows test (r ∷ d) = (λ e. e, all_rows test d)

pub contains-filtered : (s other : ScopeSet) → contains other (filtered s other) ≡ true
unfolding contains filtered
contains-filtered s other =
    let test : List String → Bool = λ is. has_some_scope is other in
    contains_rows_of other (add_where test s.scopes_to_implicants no_scopes).scopes_to_implicants (
      add_where-Passes test test s.scopes_to_implicants no_scopes
        (all_rows test s.scopes_to_implicants) tt)

-- What a set leaves after a difference is implied by none of the second set.
pub difference-Passes :
    (s other : ScopeSet)
    → Passes (λ is. not (has_some_scope is other)) (difference s other).scopes_to_implicants
unfolding difference
difference-Passes s other =
    let test : List String → Bool = λ is. not (has_some_scope is other) in
    add_where-Passes test test s.scopes_to_implicants no_scopes
      (all_rows test s.scopes_to_implicants) tt

held :
    (test keep : List String → Bool) (d : Dict)
    → Passes keep d
    → All (λ r. test r.1 ≡ true → keep r.1 ≡ true) d
held test keep [] h = tt
held test keep (r ∷ d) h = (λ _. h.0, held test keep d h.1)

-- A set that contains another contains what a difference leaves of it.
pub contains-difference :
    (s t other : ScopeSet) → contains s t ≡ true → contains s (difference t other) ≡ true
unfolding contains difference
contains-difference s t other h =
    let test : List String → Bool = λ is. not (has_some_scope is other) in
    let keep : List String → Bool = λ is. has_some_scope is s in
    contains_rows_of s (add_where test t.scopes_to_implicants no_scopes).scopes_to_implicants (
      add_where-Passes test keep t.scopes_to_implicants no_scopes
        (held test keep t.scopes_to_implicants (Passes-contains_rows s t.scopes_to_implicants h))
        tt)
