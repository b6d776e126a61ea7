-- ===== src/Oauth/Implicants/Own.antt =====
-- A valid scope stands among the scopes that imply it.
use Prim.Native.String.{String, [], ◌∷◌}
use fxa_lite.Prelude.{
  ℕ, suc, ◌≡◌, refl, ap, sym, ◌∙◌, Bool, true, false, not, ◌||◌, Option, none, some, List, [], ◌∷◌,
  arith, str_eq, eq_iff, if◌then◌else◌, Bool-cases, inl, inr, length, pop, last_or, ltb, ◌==◌,
}
use Prim.Native.Char.{code}
use fxa_lite.Exec.{Result, ok, raised}
use fxa_lite.Python.Strings.{◌<>◌, is_in, split, join, starts_with}
use fxa_lite.Python.Strings.Laws.{join-split, join-pop, split-IsCons, IsCons}
use fxa_lite.Python.Urls.{Parts, urlsplit, urlunsplit}
use fxa_lite.Python.Urls.Laws.{IsRooted, urlsplit-IsRooted, urlunsplit-plain, urlunsplit-fragment}
use fxa_lite.Oauth.Implicants.{
  ScopeError, invalid_scope, short_yields, short_of, of_names, short_implicants, acceptable,
  url_yields, rounds, of_parts, url_implicants, implicant_values, dedup_from, deduped, implicants,
  max_short_scope_components, all_names,
}

-- A list of scopes that has the value, if it is one at all.
abbrev pub Has : String → Result ScopeError (List String) → Type 0
Has value (ok is) = is_in value is ≡ true
Has value (raised e) = Unit

short_of-Has :
    (value : String) (names : List String)
    → join ":" names ≡ value
    → Has value (short_of value false names)
unfolding short_of short_yields is_in
short_of-Has value [] h = tt
short_of-Has value (n ∷ ns) h = ground (arith, eq_iff (join ":" (n ∷ ns)) value)

write_of-Has :
    (value : String) (names : List String)
    → join ":" names ≡ value
    → str_eq (last_or "" names) "write" ≡ true
    → Has value (short_of value true (pop names))
unfolding short_of short_yields is_in
write_of-Has value [] h w = tt
write_of-Has value (n ∷ []) h w = tt
write_of-Has value (n ∷ m ∷ ns) h w =
    let front = join ":" (pop (n ∷ m ∷ ns)) in
    let last : last_or m ns ≡ "write" = (eq_iff (last_or m ns) "write").0 w in
    let first : front <> ":write" ≡ value =
      sym (ap (λ t. front <> (":" <> t)) last) ∙ sym (join-pop ":" n m ns) ∙ h in
    ground (arith, eq_iff (front <> ":write") value)

if_Has :
    (value : String) (b : Bool) (r : Result ScopeError (List String))
    → Has value r
    → Has value (if b then raised (invalid_scope value) else r)
if_Has value true r h = tt
if_Has value false r h = h

of_names-Has :
    (value : String) (names : List String)
    → join ":" names ≡ value
    → Has value (of_names value names)
unfolding of_names
of_names-Has value names h = elim (Bool-cases (str_eq (last_or "" names) "write")) [
  | inl e ↦ rw e (
      if_Has value (ltb max_short_scope_components (length names) || not (all_names names))
        (short_of value true (pop names)) (write_of-Has value names h e))
  | inr e ↦ rw e (
      if_Has value (ltb max_short_scope_components (length names) || not (all_names names))
        (short_of value false names) (short_of-Has value names h))
]

short_implicants-Has : (value : String) → Has value (short_implicants value)
unfolding short_implicants
short_implicants-Has value =
    ground (arith, of_names-Has value (split b':' value) (join-split ":" value))

length-IsCons : (ws : List String) → IsCons ws → (n : ℕ) × (length ws ≡ suc n)
length-IsCons [] h = absurd h
length-IsCons (w ∷ ws) h = (length ws, refl)

split-rooted :
    (path : String) → starts_with "/" path ≡ true → (n : ℕ) × (rounds (split b'/' path) ≡ suc n)
unfolding split starts_with rounds
split-rooted [] h = cc
split-rooted (c ∷ s) h =
    let slash : code c == b'/' ≡ true = ground arith in
    rw slash (length-IsCons (split b'/' s) (split-IsCons b'/' s))

-- The first round yields the value.
module _ (value : String) (p : Parts) (whole : urlunsplit p ≡ value) (q : p.query ≡ "")
    (r : starts_with "/" p.path ≡ true) where
  url_yields-whole :
      (n : ℕ) (segments : List String)
      → join "/" segments ≡ p.path
      → is_in value (url_yields ("https://" <> p.netloc) p.fragment (suc n) segments) ≡ true
  unfolding url_yields is_in
  url_yields-whole n segments j =
      let parent = ("https://" <> p.netloc) <> join "/" segments in
      let same : parent ≡ ("https://" <> p.netloc) <> p.path =
        ap (λ t. ("https://" <> p.netloc) <> t) j in
      elim (Bool-cases (str_eq p.fragment "")) [
        | inl e ↦
            let plain : parent ≡ value =
              same ∙ sym (urlunsplit-plain p q ((eq_iff p.fragment "").0 e) r) ∙ whole in
            ground (arith, eq_iff parent value)
        | inr e ↦
            let marked : parent <> ("#" <> p.fragment) ≡ value =
              ap (λ t. t <> ("#" <> p.fragment)) same ∙ sym (urlunsplit-fragment p q e r) ∙ whole in
            ground (arith, eq_iff (parent <> ("#" <> p.fragment)) value)
      ]

-- The path of an accepted URL starts with a slash, and the parts make the value.
of_parts-Has :
    (value : String) (o : Option Parts)
    → ((p : Parts) → o ≡ some p → str_eq p.netloc "" ≡ false → IsRooted p.path)
    → Has value (of_parts value o)
unfolding of_parts acceptable
of_parts-Has value none k = tt
of_parts-Has value (some p) k = elim (Bool-cases (acceptable value p)) [
  | inr e ↦ rw e tt
  | inl e ↦
      let rooted : starts_with "/" p.path ≡ true = elim (k p refl (ground arith)) [
        | inl bare ↦ absurd (ground (arith, eq_iff p.path ""))
        | inr r ↦ r
      ] in
      let (n, some_rounds) = split-rooted p.path rooted in
      rw (e, some_rounds)
        (url_yields-whole value p ((eq_iff (urlunsplit p) value).0 (ground arith))
          ((eq_iff p.query "").0 (ground arith)) rooted n (split b'/' p.path)
          (join-split "/" p.path))
]

url_implicants-Has : (value : String) → Has value (url_implicants value)
unfolding url_implicants
url_implicants-Has value =
    ground (arith, of_parts-Has value (urlsplit value) (urlsplit-IsRooted value))

is_in-dedup_from :
    (v : String) (seen vs : List String)
    → is_in v (dedup_from seen vs) || is_in v seen ≡ is_in v vs || is_in v seen
unfolding dedup_from is_in
is_in-dedup_from v seen [] = refl
is_in-dedup_from v seen (w ∷ vs) =
    ground (arith, eq_iff w v, is_in-dedup_from v seen vs, is_in-dedup_from v (w ∷ seen) vs)

deduped-Has :
    (value : String) (r : Result ScopeError (List String)) → Has value r → Has value (deduped r)
unfolding deduped is_in
deduped-Has value (ok vs) h = ground (arith, is_in-dedup_from value [] vs)
deduped-Has value (raised e) h = tt

pub implicants-Has : (value : String) → Has value (implicants value)
unfolding implicants implicant_values
implicants-Has value = ground (
  arith,
  deduped-Has value (url_implicants value) (url_implicants-Has value),
  deduped-Has value (short_implicants value) (short_implicants-Has value),
)
