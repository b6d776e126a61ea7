-- ===== src/Python/Urls/Laws.antt =====
-- The path of a split URL, and how the parts come together again.
use Prim.Native.String.{String, [], ◌∷◌}
use Prim.Native.Char.{code}
use text.Mathlib.TextLemmas.{append_assoc, append-nil, nil-append}
use fxa_lite.Prelude.{
  ℕ, ◌≡◌, refl, ap, ◌∙◌, Bool, true, false, not, ◌&&◌, ◌||◌, some, arith, ◌==◌, str_eq,
  if◌then◌else◌, Bool-cases, inl, inr, ◌⊎◌, subst,
}
use fxa_lite.Python.Strings.{◌<>◌, cut, drop_chars, drop_char, starts_with}
use fxa_lite.Python.Urls.{Parts, authority, of_authority, parts_of, urlsplit, urlunsplit, with_mark}

abbrev ends_authority : ℕ → Bool
ends_authority x = x == b'/' || (x == b'?' || x == b'#')

-- The text is empty or goes on after the authority.
Leads : String → Type 0
Leads [] = Unit
Leads (c ∷ s) = ends_authority (code c) ≡ true

cut-Leads : (s : String) → Leads (cut ends_authority s).1
unfolding cut Leads
cut-Leads [] = tt
cut-Leads (c ∷ s) = ground (arith, cut-Leads s)

-- A path that is empty or starts with a slash.
abbrev pub IsRooted : String → Type 0
IsRooted path = (path ≡ "") ⊎ (starts_with "/" path ≡ true)

path-IsRooted :
    (rest : String) → Leads rest → IsRooted (cut (λ x. x == b'?') (cut (λ x. x == b'#') rest).0).0
unfolding cut Leads starts_with
path-IsRooted [] h = inl refl
path-IsRooted (c ∷ s) h = elim (Bool-cases (code c == b'#')) [
  | inl e ↦ rw e (inl refl)
  | inr e ↦ elim (Bool-cases (code c == b'?')) [
    | inl k ↦ rw (e, k) (inl refl)
    | inr k ↦ rw (e, k) (inr (ground arith))
  ]
]

of_authority-IsRooted :
    (netloc rest : String) (p : Parts)
    → (str_eq netloc "" ≡ false → Leads rest)
    → of_authority (netloc, rest) ≡ some p
    → str_eq p.netloc "" ≡ false
    → IsRooted p.path
unfolding of_authority parts_of
of_authority-IsRooted netloc rest p lead h k =
    let q =
      parts_of netloc (cut (λ x. x == b'#') rest)
        (cut (λ x. x == b'?') (cut (λ x. x == b'#') rest).0) in
    let here : q ≡ p = ground arith in
    let named : str_eq q.netloc "" ≡ false = ap (λ r. str_eq r.netloc "") here ∙ k in
    subst (λ r. IsRooted r.path) here (path-IsRooted rest (lead named))

authority-IsRooted :
    (s : String) (p : Parts)
    → of_authority (authority s) ≡ some p
    → str_eq p.netloc "" ≡ false
    → IsRooted p.path
unfolding authority
authority-IsRooted [] p h k = of_authority-IsRooted "" "" p (λ e. ground arith) h k
authority-IsRooted (c ∷ s) p h k = elim (Bool-cases (starts_with "//" (c ∷ s))) [
  | inl e ↦
      let at = cut ends_authority (drop_chars 2 (c ∷ s)) in
      of_authority-IsRooted at.0 at.1 p (λ _. cut-Leads (drop_chars 2 (c ∷ s))) (ground arith) k
  | inr e ↦ of_authority-IsRooted "" (c ∷ s) p (λ n. ground arith) (ground arith) k
]

-- The path of a URL with an authority is empty or starts with a slash.
pub urlsplit-IsRooted :
    (value : String) (p : Parts)
    → urlsplit value ≡ some p
    → str_eq p.netloc "" ≡ false
    → IsRooted p.path
unfolding urlsplit
urlsplit-IsRooted value p = authority-IsRooted (drop_chars 6 (drop_char 10 value)) p

no_slash : (b : Bool) → Path String (if b && false then "/" else "") ""
no_slash true = refl
no_slash false = refl

-- The parts of a URL without a query, put together.
pub urlunsplit-plain :
    (p : Parts)
    → p.query ≡ ""
    → p.fragment ≡ ""
    → starts_with "/" p.path ≡ true
    → urlunsplit p ≡ ("https://" <> p.netloc) <> p.path
unfolding urlunsplit with_mark
urlunsplit-plain p q f r =
    rw (q, f, r, no_slash (not (str_eq p.path "")), nil-append, append-nil, append_assoc) refl

pub urlunsplit-fragment :
    (p : Parts)
    → p.query ≡ ""
    → str_eq p.fragment "" ≡ false
    → starts_with "/" p.path ≡ true
    → urlunsplit p ≡ (("https://" <> p.netloc) <> p.path) <> ("#" <> p.fragment)
unfolding urlunsplit with_mark
urlunsplit-fragment p q f r =
    rw
      (
        q,
        f,
        r,
        no_slash (not (str_eq p.path "")),
        nil-append,
        nil-append,
        append_assoc,
        append_assoc,
      )
      refl
