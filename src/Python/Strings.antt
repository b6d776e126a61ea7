-- ===== src/Python/Strings.antt =====
-- The methods of `str` that the accounts and the OAuth server call, on the characters of ASCII.
pub mod Laws
use Prim.Native.Char.{Char, code}
use Prim.Native.String
use Prim.Native.String.{String, [], ◌∷◌, char_at}
use fxa_lite.Prelude.{
  ℕ, zero, suc, ◌-◌, Bool, true, false, ◌&&◌, ◌||◌, Option, none, some, List, [], ◌∷◌, leb, ◌==◌,
  str_eq, if◌then◌else◌,
}

infixr 65 ◌<>◌
abbrev pub ◌<>◌ : String → String → String
s <> t = String.◌++◌ s t

-- `value in values`
unfoldable pub is_in : String → List String → Bool
is_in value [] = false
is_in value (v ∷ values) = str_eq v value || is_in value values

-- `re.match(r"^[…]+$", value)`: `$` matches before a newline at the end too
unfoldable pub all_chars : (ℕ → Bool) → String → Bool
all_chars ok [] = true
all_chars ok (c ∷ []) = ok (code c) || code c == 10
all_chars ok (c ∷ d ∷ s) = ok (code c) && all_chars ok (d ∷ s)

unfoldable pub matches : (ℕ → Bool) → String → Bool
unfolding all_chars
matches ok [] = false
matches ok (c ∷ s) = ok (code c) && all_chars ok (c ∷ s)

push : Char → List String → List String
push c [] = (c ∷ []) ∷ []
push c (w ∷ ws) = (c ∷ w) ∷ ws

-- `value.split(sep)`
unfoldable pub split : ℕ → String → List String
unfolding push
split sep [] = "" ∷ []
split sep (c ∷ s) = let rest = split sep s in if code c == sep then "" ∷ rest else push c rest

-- `sep.join(words)`
unfoldable pub join : String → List String → String
join sep [] = ""
join sep (w ∷ []) = w
join sep (w ∷ v ∷ vs) = w <> (sep <> join sep (v ∷ vs))

-- `value.partition(sep)` at the first character that passes the test: before it, and from it on
unfoldable pub cut : (ℕ → Bool) → String → String × String
cut stop [] = ("", "")
cut stop (c ∷ s) =
    let rest = cut stop s in if stop (code c) then ("", c ∷ s) else (c ∷ rest.0, rest.1)

is_upper : ℕ → Bool
is_upper c = leb b'A' c && leb c b'Z'

lower_char : Char → Char
unfolding is_upper
lower_char c = if is_upper (code c) then char_at "abcdefghijklmnopqrstuvwxyz" (code c - b'A') else c

unfoldable pub lower : String → String
unfolding lower_char
lower [] = ""
lower (c ∷ s) = lower_char c ∷ lower s

is_space : ℕ → Bool
is_space c = (leb 9 c && leb c 13) || (leb 28 c && leb c 32)

-- the pieces between two characters of white space, those of no character too
pieces : String → List String
unfolding push is_space
pieces [] = "" ∷ []
pieces (c ∷ s) = let rest = pieces s in if is_space (code c) then "" ∷ rest else push c rest

without_empty : List String → List String
without_empty [] = []
without_empty (w ∷ ws) = let rest = without_empty ws in if str_eq w "" then rest else w ∷ rest

-- `value.split()`
unfoldable pub words : String → List String
unfolding pieces without_empty
words s = without_empty (pieces s)

left_strip : String → String
unfolding is_space
left_strip [] = ""
left_strip (c ∷ s) = let rest = left_strip s in if is_space (code c) then rest else c ∷ s

keep_unless_blank : Char → String → String
unfolding is_space
keep_unless_blank c [] = if is_space (code c) then "" else c ∷ []
keep_unless_blank c (d ∷ s) = c ∷ d ∷ s

right_strip : String → String
unfolding keep_unless_blank
right_strip [] = ""
right_strip (c ∷ s) = keep_unless_blank c (right_strip s)

unfoldable pub strip : String → String
unfolding left_strip right_strip
strip s = right_strip (left_strip s)

-- `value.endswith(suffix)`
unfoldable pub ends_with : String → String → Bool
ends_with suffix [] = str_eq suffix ""
ends_with suffix (c ∷ s) = str_eq suffix (c ∷ s) || ends_with suffix s

-- `value.startswith(prefix)`
unfoldable pub starts_with : String → String → Bool
starts_with [] s = true
starts_with (c ∷ p) [] = false
starts_with (c ∷ p) (d ∷ s) = code c == code d && starts_with p s

-- `value[n:]`
unfoldable pub drop_chars : ℕ → String → String
drop_chars zero s = s
drop_chars (suc n) [] = ""
drop_chars (suc n) (c ∷ s) = drop_chars n s

longer_prefix : Char → Bool → Option String → Option String
longer_prefix c here none = if here then some "" else none
longer_prefix c here (some w) = some (c ∷ w)

-- `value.rpartition(sep)[0]`, where the separator is there
unfoldable pub before_last : ℕ → String → Option String
unfolding longer_prefix
before_last sep [] = none
before_last sep (c ∷ s) = longer_prefix c (code c == sep) (before_last sep s)

-- `re.search` of one character of a class
unfoldable pub any_char : (ℕ → Bool) → String → Bool
any_char p [] = false
any_char p (c ∷ s) = p (code c) || any_char p s

unfoldable pub drop_char : ℕ → String → String
drop_char x [] = ""
drop_char x (c ∷ s) = let rest = drop_char x s in if code c == x then rest else c ∷ rest

-- `value or None`: an empty text counts as none
unfoldable pub given : Option String → Option String
given none = none
given (some value) = if str_eq value "" then none else some value
