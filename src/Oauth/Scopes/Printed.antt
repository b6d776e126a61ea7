-- ===== src/Oauth/Scopes/Printed.antt =====
-- What the text of a scope set reads as: a set that stays within the same bounds.
use Prim.Native.String.{String, [], ◌∷◌}
use fxa_lite.Prelude.{
  true, false, ◌≡◌, refl, ap, ◌∙◌, List, [], ◌∷◌, arith, str_eq, eq_iff, Bool-cases, inl, inr, All,
  subst, map,
}
use fxa_lite.Exec.{Result, ok}
use fxa_lite.Python.Strings.{all_chars, matches, split, join, any_char}
use fxa_lite.Python.Strings.Laws.{IsUnbroken, split-join}
use fxa_lite.Oauth.Implicants.{
  ScopeError, valid_scope_char, implicants, deduped, implicant_values, url_implicants,
  short_implicants,
}
use fxa_lite.Oauth.Scopes.{
  Dict, ScopeSet, no_scopes, add_rows, derived, set_of, with_implicants, prepend, from_array,
  from_string, nonempty, contains, contains_rows, values, to_string, has_some_scope,
}
use fxa_lite.Oauth.Scopes.Rows.{IsDerived, HasDerived, add_rows-All}

-- A scope has no space in it.
all_chars-IsUnbroken : (w : String) → all_chars valid_scope_char w ≡ true → IsUnbroken b' ' w
unfolding all_chars any_char valid_scope_char
all_chars-IsUnbroken [] h = refl
all_chars-IsUnbroken (c ∷ []) h = ground arith
all_chars-IsUnbroken (c ∷ d ∷ w) h = ground (arith, all_chars-IsUnbroken (d ∷ w))

matches-IsUnbroken : (w : String) → matches valid_scope_char w ≡ true → IsUnbroken b' ' w
unfolding matches any_char
matches-IsUnbroken [] h = refl
matches-IsUnbroken (c ∷ w) h = all_chars-IsUnbroken (c ∷ w) (ground arith)

matches-nonempty : (w : String) → matches valid_scope_char w ≡ true → str_eq w "" ≡ false
unfolding matches
matches-nonempty w h = elim (Bool-cases (str_eq w "")) [
  | inl e ↦
      let empty : matches valid_scope_char "" ≡ true =
        subst (λ x. matches valid_scope_char x ≡ true) ((eq_iff w "").0 e) h in
      absurd (ground arith)
  | inr e ↦ e
]

implicants-matches :
    (w : String) (is : List String) → implicants w ≡ ok is → matches valid_scope_char w ≡ true
unfolding implicants deduped implicant_values url_implicants short_implicants
implicants-matches w is h = ground arith

words-IsUnbroken : (d : Dict) → All IsDerived d → All (IsUnbroken b' ') (map (λ r. r.0) d)
words-IsUnbroken [] h = tt
words-IsUnbroken ((w, is) ∷ d) h =
    (matches-IsUnbroken w (implicants-matches w is h.0), words-IsUnbroken d h.1)

nonempty-words : (d : Dict) → All IsDerived d → nonempty (map (λ r. r.0) d) ≡ map (λ r. r.0) d
unfolding nonempty
nonempty-words [] h = refl
nonempty-words ((w, is) ∷ d) h =
    rw (matches-nonempty w (implicants-matches w is h.0), nonempty-words d h.1) refl

split-words :
    (d : Dict)
    → All IsDerived d
    → nonempty (split b' ' (join " " (map (λ r. r.0) d))) ≡ map (λ r. r.0) d
unfolding split join nonempty
split-words [] h = refl
split-words ((w, is) ∷ d) h =
    ap nonempty (split-join " " w (map (λ r. r.0) d) (words-IsUnbroken ((w, is) ∷ d) h))
    ∙ nonempty-words ((w, is) ∷ d) h

derived-words : (d : Dict) → All IsDerived d → derived (map (λ r. r.0) d) ≡ ok d
unfolding derived with_implicants prepend
derived-words [] h = refl
derived-words ((w, is) ∷ d) h = rw (h.0, derived-words d h.1) refl

-- The text of a set reads as the set that its rows make when they are added again.
from_string-to_string :
    (s : ScopeSet)
    → HasDerived s
    → from_string (to_string s) ≡ ok (add_rows s.scopes_to_implicants no_scopes)
unfolding from_string from_array to_string values set_of
from_string-to_string s h =
    ap from_array (split-words s.scopes_to_implicants h)
    ∙ ap set_of (derived-words s.scopes_to_implicants h)

module _ (s : ScopeSet) where
  abbrev IsCovered : String × List String → Type 0
  IsCovered row = has_some_scope row.1 s ≡ true

  contains-All : (d : Dict) → contains_rows s d ≡ true → All IsCovered d
  unfolding contains_rows
  contains-All [] h = tt
  contains-All ((w, is) ∷ d) h = (ground arith, contains-All d (ground arith))

  All-contains : (d : Dict) → All IsCovered d → contains_rows s d ≡ true
  unfolding contains_rows
  All-contains [] h = refl
  All-contains ((w, is) ∷ d) h = rw (h.0, All-contains d h.1) refl

ok_injective : (r : Result ScopeError ScopeSet) (a b : ScopeSet) → r ≡ ok a → r ≡ ok b → a ≡ b
ok_injective r a b h k = ground arith

-- What the text of a set reads as is implied by every set that implies the printed one.
pub contains-to_string :
    (s t r : ScopeSet)
    → HasDerived t
    → contains s t ≡ true
    → from_string (to_string t) ≡ ok r
    → contains s r ≡ true
unfolding contains
contains-to_string s t r h c e =
    let rows = t.scopes_to_implicants in
    let again : add_rows rows no_scopes ≡ r =
      ok_injective (from_string (to_string t)) (add_rows rows no_scopes) r
        (from_string-to_string t h) e in
    subst (λ x. contains s x ≡ true) again
      (All-contains s (add_rows rows no_scopes).scopes_to_implicants
        (add_rows-All (IsCovered s) rows no_scopes (contains-All s rows c) tt))
