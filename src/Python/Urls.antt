-- ===== src/Python/Urls.antt =====
-- `urlsplit` and `urlunsplit` of an https URL without white space but newlines. A host in brackets,
-- which the ipaddress module looks into, is a ValueError here.
pub mod Laws
use Prim.Native.Char.{code}
use Prim.Native.String.{String, [], ◌∷◌}
use fxa_lite.Prelude.{Bool, not, ◌&&◌, ◌||◌, Option, none, some, ◌==◌, str_eq, if◌then◌else◌}
use fxa_lite.Python.Strings.{◌<>◌, cut, drop_chars, drop_char, any_char, starts_with}

pub record Parts : Type 0 where
  pub netloc : String
  pub path : String
  pub query : String
  pub fragment : String

-- what follows the scheme: the authority, and the rest
unfoldable pub authority : String → String × String
unfolding starts_with cut drop_chars
authority [] = ("", "")
authority (c ∷ s) =
    if starts_with "//" (c ∷ s)
    then cut (λ x. x == b'/' || (x == b'?' || x == b'#')) (drop_chars 2 (c ∷ s))
    else ("", c ∷ s)

tail : String → String
tail [] = ""
tail (c ∷ s) = s

-- the rest at its first `#`, and what stands before at its first `?`
unfoldable pub parts_of : String → String × String → String × String → Parts
unfolding tail
parts_of netloc (before, fragment) (path, query) = record {
  netloc = netloc;
  path = path;
  query = tail query;
  fragment = tail fragment;
}

unfoldable pub of_authority : String × String → Option Parts
unfolding parts_of cut any_char
of_authority (netloc, rest) =
    let at_fragment = cut (λ x. x == b'#') rest in
    if any_char (λ x. x == b'[' || x == b']') netloc
    then none
    else some (parts_of netloc at_fragment (cut (λ x. x == b'?') at_fragment.0))

-- `urlsplit(value)`, where `none` is the ValueError
unfoldable pub urlsplit : String → Option Parts
unfolding authority of_authority drop_chars drop_char
urlsplit value = of_authority (authority (drop_chars 6 (drop_char 10 value)))

unfoldable pub with_mark : String → String → String
with_mark mark text = if str_eq text "" then "" else mark <> text

-- `urlunsplit(parts)`, where the authority is not empty
unfoldable pub urlunsplit : Parts → String
unfolding with_mark starts_with
urlunsplit p =
    let slash = if not (str_eq p.path "") && not (starts_with "/" p.path) then "/" else "" in
    "https://"
    <> (p.netloc <> (slash <> (p.path <> (with_mark "?" p.query <> with_mark "#" p.fragment))))
