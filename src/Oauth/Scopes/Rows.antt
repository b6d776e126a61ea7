-- ===== src/Oauth/Scopes/Rows.antt =====
-- The rows of a scope set: what holds of each that is added, and how they come from texts.
use Prim.Native.String.{String}
use fxa_lite.Prelude.{
  Bool, ◌≡◌, refl, sym, List, [], ◌∷◌, arith, str_eq, eq_iff, if◌then◌else◌, Bool-cases, inl, inr,
  All, subst,
}
use fxa_lite.Exec.{Result, ok, raised}
use fxa_lite.Python.Strings.{split}
use fxa_lite.Oauth.Implicants.{ScopeError, implicants}
use fxa_lite.Oauth.Scopes.{
  Dict, ScopeSet, no_scopes, get, set_key, delete_key, remove_scope, remove_scopes, enter,
  add_scope, add_where, add_rows, derived, set_of, with_implicants, prepend, from_array,
  from_string, nonempty, filtered, has_some_scope,
}

-- What holds of every row that is added holds of every row of the set.
module _ (P : String × List String → Type 0) where
  delete_key-All : (k : String) (d : Dict) → All P d → All P (delete_key k d)
  unfolding delete_key
  delete_key-All k [] h = tt
  delete_key-All k ((j, vs) ∷ d) h = ground (arith, delete_key-All k d h.1)

  set_key-All :
      (k : String) (is : List String) (d : Dict) → P (k, is) → All P d → All P (set_key k is d)
  unfolding set_key
  set_key-All k is [] p h = (p, tt)
  set_key-All k is ((j, vs) ∷ d) p h = elim (Bool-cases (str_eq j k)) [
    | inl e ↦
        let here : P (j, is) = subst (λ x. P (x, is)) (sym ((eq_iff j k).0 e)) p in rw e (here, h.1)
    | inr e ↦ rw e (h.0, set_key-All k is d p h.1)
  ]

  remove_scopes-All :
      (scopes : List String) (s : ScopeSet)
      → All P s.scopes_to_implicants
      → All P (remove_scopes scopes s).scopes_to_implicants
  unfolding remove_scopes remove_scope
  remove_scopes-All [] s h = h
  remove_scopes-All (scope ∷ scopes) s h =
      remove_scopes-All scopes (remove_scope scope s)
        (delete_key-All scope s.scopes_to_implicants h)

  pub add_scope-All :
      (scope : String) (is : List String) (s : ScopeSet)
      → P (scope, is)
      → All P s.scopes_to_implicants
      → All P (add_scope scope is s).scopes_to_implicants
  unfolding add_scope enter
  add_scope-All scope is s p h =
      let others = get scope s.implicants_to_scopes in
      let kept = remove_scopes-All others s h in
      let added = set_key-All scope is (remove_scopes others s).scopes_to_implicants p kept in
      elim (Bool-cases (has_some_scope is s)) [ inl e ↦ rw e h | inr e ↦ rw e added ]

  pub add_rows-All :
      (d : Dict) (s : ScopeSet)
      → All P d
      → All P s.scopes_to_implicants
      → All P (add_rows d s).scopes_to_implicants
  unfolding add_rows
  add_rows-All [] s p h = h
  add_rows-All ((scope, is) ∷ d) s p h =
      add_rows-All d (add_scope scope is s) p.1 (add_scope-All scope is s p.0 h)

  pub add_where-All :
      (test : List String → Bool) (d : Dict) (s : ScopeSet)
      → All P d
      → All P s.scopes_to_implicants
      → All P (add_where test d s).scopes_to_implicants
  unfolding add_where
  add_where-All test [] s p h = h
  add_where-All test ((scope, is) ∷ d) s p h =
      add_where-All test d (if test is then add_scope scope is s else s) p.1
        (elim (Bool-cases (test is)) [
          | inl e ↦ rw e (add_scope-All scope is s p.0 h)
          | inr e ↦ rw e h
        ])

-- A row as the scope's text gives it.
abbrev pub IsDerived : String × List String → Type 0
IsDerived row = implicants row.0 ≡ ok row.1

abbrev pub HasDerived : ScopeSet → Type 0
HasDerived s = All IsDerived s.scopes_to_implicants

with_implicants-ok :
    (scope : String) (r : Result ScopeError (List String)) (rest : Result ScopeError Dict)
    (d : Dict)
    → implicants scope ≡ r
    → ((e : Dict) → rest ≡ ok e → All IsDerived e)
    → with_implicants scope r rest ≡ ok d
    → All IsDerived d
unfolding with_implicants prepend
with_implicants-ok scope (raised e) rest d i k h = cc
with_implicants-ok scope (ok is) (raised e) d i k h = cc
with_implicants-ok scope (ok is) (ok e) d i k h =
    let same : ((scope, is) ∷ e) ≡ d = ground arith in subst (All IsDerived) same (i, k e refl)

derived-IsDerived : (scopes : List String) (d : Dict) → derived scopes ≡ ok d → All IsDerived d
unfolding derived
derived-IsDerived [] d h = let same : [] ≡ d = ground arith in subst (All IsDerived) same tt
derived-IsDerived (scope ∷ scopes) d h =
    with_implicants-ok scope (implicants scope) (derived scopes) d refl (derived-IsDerived scopes) h

set_of-HasDerived :
    (r : Result ScopeError Dict) (s : ScopeSet)
    → ((d : Dict) → r ≡ ok d → All IsDerived d)
    → set_of r ≡ ok s
    → HasDerived s
unfolding set_of
set_of-HasDerived (raised e) s k h = cc
set_of-HasDerived (ok d) s k h =
    let same : add_rows d no_scopes ≡ s = ground arith in
    subst HasDerived same (add_rows-All IsDerived d no_scopes (k d refl) tt)

pub from_array-HasDerived :
    (scopes : List String) (s : ScopeSet) → from_array scopes ≡ ok s → HasDerived s
unfolding from_array
from_array-HasDerived scopes s h = set_of-HasDerived (derived scopes) s (derived-IsDerived scopes) h

pub from_string-HasDerived :
    (value : String) (s : ScopeSet) → from_string value ≡ ok s → HasDerived s
unfolding from_string
from_string-HasDerived value s h = from_array-HasDerived (nonempty (split b' ' value)) s h

pub filtered-HasDerived : (s t : ScopeSet) → HasDerived s → HasDerived (filtered s t)
unfolding filtered
filtered-HasDerived s t h =
    add_where-All IsDerived (λ is. has_some_scope is t) s.scopes_to_implicants no_scopes h tt
