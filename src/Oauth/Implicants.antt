-- ===== src/Oauth/Implicants.antt =====
-- oauth/scopes.py: the scopes that imply a scope, `implicant_values` and `_implicants`. Text is
-- ASCII where the regular expressions admit it.
pub mod Own
use Prim.Native.String.{String}
use fxa_lite.Prelude.{
  ℕ, zero, suc, Bool, true, false, not, ◌&&◌, ◌||◌, Option, none, some, List, [], ◌∷◌, leb, ltb,
  ◌==◌, str_eq, if◌then◌else◌, length, pop, last_or,
}
use fxa_lite.Exec.{Result, ok, raised}
use fxa_lite.Python.Strings.{
  ◌<>◌, is_in, matches, split, join, before_last, any_char, starts_with, ends_with,
}
use fxa_lite.Python.Urls.{Parts, urlsplit, urlunsplit}

-- `InvalidScopeError`, and the ValueError that `urlsplit` raises
pub data ScopeError : Type 0 where
  invalid_scope : String → ScopeError
  value_error : ScopeError

-- `_VALID_SCOPE_VALUE`, `_VALID_SHORT_NAME` and the letters of `_VALID_FRAGMENT`
unfoldable pub valid_scope_char : ℕ → Bool
valid_scope_char c = c == 33 || ((leb 35 c && leb c 91) || (leb 93 c && leb c 126))

unfoldable pub valid_name_char : ℕ → Bool
valid_name_char c =
    (leb b'a' c && leb c b'z')
    || ((leb b'A' c && leb c b'Z') || ((leb b'0' c && leb c b'9') || c == b'_'))

abbrev pub max_short_scope_components : ℕ
max_short_scope_components = 32

all_names : List String → Bool
unfolding matches
all_names [] = true
all_names (name ∷ names) = matches valid_name_char name && all_names names

-- The loop `while names`, which pops one name a round.
unfoldable pub short_yields : Bool → ℕ → List String → List String
unfolding join
short_yields has_write zero names = []
short_yields has_write (suc n) names =
    let joined = join ":" names in
    let more = short_yields has_write n (pop names) in
    (joined <> ":write") ∷ (if has_write then more else joined ∷ more)

unfoldable pub short_of : String → Bool → List String → Result ScopeError (List String)
unfolding short_yields
short_of value has_write [] = raised (invalid_scope value)
short_of value has_write (name ∷ names) =
    ok (short_yields has_write (length (name ∷ names)) (name ∷ names))

unfoldable pub of_names : String → List String → Result ScopeError (List String)
unfolding all_names short_of
of_names value names =
    let has_write = str_eq (last_or "" names) "write" in
    if ltb max_short_scope_components (length names) || not (all_names names)
    then raised (invalid_scope value)
    else short_of value has_write (if has_write then pop names else names)

-- The split stops after 32 colons, and more than 32 names are refused: as with all of them.
unfoldable pub short_implicants : String → Result ScopeError (List String)
unfolding of_names valid_scope_char valid_name_char matches split
short_implicants value =
    if matches valid_scope_char value
    then of_names value (split b':' value)
    else raised (invalid_scope value)

-- `parts.username or parts.password`
has_credentials : Option String → Bool
has_credentials none = false
has_credentials (some userinfo) = not (str_eq userinfo "" || str_eq userinfo ":")

is_upper : ℕ → Bool
is_upper c = leb b'A' c && leb c b'Z'

is_path_escape : ℕ → Bool
is_path_escape c = c == b'<' || (c == b'>' || (c == b'`' || (c == b'{' || (c == b'}' || c == 92))))

-- The conditions of `_url_implicants` on the parts, in its order; all raise the same error.
unfoldable pub acceptable : String → Parts → Bool
unfolding has_credentials is_upper is_path_escape before_last any_char ends_with is_in split
    urlunsplit matches
acceptable value p =
    not (has_credentials (before_last b'@' p.netloc))
    && (str_eq p.query ""
        && (not (str_eq p.netloc "")
            && (not (any_char is_upper p.netloc)
                && (not (ends_with ":443" p.netloc)
                    && (not (str_eq p.path "")
                        && (not (ends_with "/" p.path)
                            && (not (is_in "." (split b'/' p.path))
                                && (not (is_in ".." (split b'/' p.path))
                                    && (not (any_char is_path_escape p.path)
                                        && ((str_eq p.fragment ""
                                              || matches valid_name_char p.fragment)
                                            && str_eq (urlunsplit p) value))))))))))

-- The loop `while len(path_parts) > 1`; the count is that of the parts less one.
unfoldable pub url_yields : String → String → ℕ → List String → List String
unfolding join
url_yields origin fragment zero parts = []
url_yields origin fragment (suc n) parts =
    let parent = origin <> join "/" parts in
    let more = url_yields origin fragment n (pop parts) in
    parent ∷ (if str_eq fragment "" then more else (parent <> ("#" <> fragment)) ∷ more)

rounds : List String → ℕ
rounds [] = 0
rounds (part ∷ parts) = length parts

unfoldable pub of_parts : String → Option Parts → Result ScopeError (List String)
unfolding acceptable url_yields rounds split
of_parts value none = raised value_error
of_parts value (some p) =
    let segments = split b'/' p.path in
    if acceptable value p
    then ok (url_yields ("https://" <> p.netloc) p.fragment (rounds segments) segments)
    else raised (invalid_scope value)

unfoldable pub url_implicants : String → Result ScopeError (List String)
unfolding of_parts valid_scope_char valid_name_char matches urlsplit
url_implicants value =
    if matches valid_scope_char value
    then of_parts value (urlsplit value)
    else raised (invalid_scope value)

unfoldable pub implicant_values : String → Result ScopeError (List String)
unfolding url_implicants short_implicants starts_with
implicant_values value =
    if starts_with "https:" value then url_implicants value else short_implicants value

-- `dict.fromkeys`: the first of equal values stays
unfoldable pub dedup_from : List String → List String → List String
unfolding is_in
dedup_from seen [] = []
dedup_from seen (v ∷ values) =
    let again = dedup_from seen values in
    let more = dedup_from (v ∷ seen) values in if is_in v seen then again else v ∷ more

unfoldable pub deduped : Result ScopeError (List String) → Result ScopeError (List String)
unfolding dedup_from
deduped (raised e) = raised e
deduped (ok values) = ok (dedup_from [] values)

-- `_implicants`
unfoldable pub implicants : String → Result ScopeError (List String)
unfolding deduped implicant_values
implicants scope = deduped (implicant_values scope)
