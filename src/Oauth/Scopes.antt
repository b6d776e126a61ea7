-- ===== src/Oauth/Scopes.antt =====
-- oauth/scopes.py `ScopeSet`. A dict is an association list in its insertion order, a set a list
-- without repetition. `_remove_scope` looks up keys that are always there, as the agreement of the
-- two dicts says (Scopes/Agreement.antt); without them it would raise a KeyError, and here it does
-- nothing.
pub mod Dict
pub mod Agreement
pub mod Difference
pub mod Irredundant
pub mod Rows
pub mod Printed
use Prim.Native.String.{String}
use fxa_lite.Prelude.{
  Bool, true, false, not, ◌&&◌, ◌||◌, List, [], ◌∷◌, ◌++◌, str_eq, if◌then◌else◌, map,
}
use fxa_lite.Exec.{Result, ok, raised}
use fxa_lite.Python.Strings.{◌<>◌, is_in, split, join}
use fxa_lite.Oauth.Implicants.{ScopeError, implicants}

abbrev pub Dict : Type 0
Dict = List (String × List String)

-- `d.get(key, ())`
unfoldable pub get : String → Dict → List String
get key [] = []
get key ((k, values) ∷ d) = if str_eq k key then values else get key d

-- `key in d`
unfoldable pub has : String → Dict → Bool
has key [] = false
has key ((k, _) ∷ d) = str_eq k key || has key d

-- `d[key] = values`
unfoldable pub set_key : String → List String → Dict → Dict
set_key key values [] = (key, values) ∷ []
set_key key values ((k, old) ∷ d) =
    if str_eq k key then (k, values) ∷ d else (k, old) ∷ set_key key values d

-- `del d[key]`
unfoldable pub delete_key : String → Dict → Dict
delete_key key [] = []
delete_key key ((k, values) ∷ d) =
    let rest = delete_key key d in if str_eq k key then rest else (k, values) ∷ rest

-- `d.setdefault(key, set()).add(value)`
unfoldable pub add_to : String → String → Dict → Dict
unfolding is_in
add_to key value [] = (key, value ∷ []) ∷ []
add_to key value ((k, values) ∷ d) =
    let rest = add_to key value d in
    if str_eq k key
    then (k, if is_in value values then values else value ∷ values) ∷ d
    else (k, values) ∷ rest

unfoldable pub without : String → List String → List String
without value [] = []
without value (v ∷ values) =
    let rest = without value values in if str_eq v value then rest else v ∷ rest

unfoldable pub keep_nonempty : String → List String → Dict → Dict
keep_nonempty key [] d = delete_key key d
keep_nonempty key (v ∷ values) d = (key, v ∷ values) ∷ d

-- `d[key].discard(value)`, and the key goes with its last value
unfoldable pub discard_from : String → String → Dict → Dict
discard_from key value [] = []
discard_from key value ((k, values) ∷ d) =
    let rest = discard_from key value d in
    if str_eq k key then keep_nonempty k (without value values) d else (k, values) ∷ rest

pub record ScopeSet : Type 0 where
  pub scopes_to_implicants : Dict
  pub implicants_to_scopes : Dict

abbrev pub no_scopes : ScopeSet
no_scopes = record { scopes_to_implicants = []; implicants_to_scopes = [] }

-- `values`
unfoldable pub values : ScopeSet → List String
values s = map (λ r. r.0) s.scopes_to_implicants

unfoldable pub no_keys : Dict → Bool
no_keys [] = true
no_keys (r ∷ d) = false

unfoldable pub is_empty : ScopeSet → Bool
unfolding no_keys
is_empty s = no_keys s.scopes_to_implicants

-- `str(scope_set)`
unfoldable pub to_string : ScopeSet → String
unfolding values join
to_string s = join " " (values s)

unfoldable pub has_some : List String → Dict → Bool
unfolding has
has_some [] d = false
has_some (scope ∷ scopes) d = has scope d || has_some scopes d

-- `_has_some_scope`
unfoldable pub has_some_scope : List String → ScopeSet → Bool
unfolding has_some
has_some_scope scopes s = has_some scopes s.scopes_to_implicants

unfoldable pub discard_all : String → List String → Dict → Dict
unfolding discard_from
discard_all scope [] d = d
discard_all scope (implicant ∷ implicants) d =
    discard_all scope implicants (discard_from implicant scope d)

-- `_remove_scope`
unfoldable pub remove_scope : String → ScopeSet → ScopeSet
unfolding discard_all get delete_key
remove_scope scope s = record s {
  scopes_to_implicants = delete_key scope s.scopes_to_implicants;
  implicants_to_scopes =
      discard_all scope (get scope s.scopes_to_implicants) s.implicants_to_scopes;
}

unfoldable pub remove_scopes : List String → ScopeSet → ScopeSet
unfolding remove_scope
remove_scopes [] s = s
remove_scopes (scope ∷ scopes) s = remove_scopes scopes (remove_scope scope s)

unfoldable pub add_all : String → List String → Dict → Dict
unfolding add_to
add_all scope [] d = d
add_all scope (implicant ∷ implicants) d = add_all scope implicants (add_to implicant scope d)

unfoldable pub enter : String → List String → ScopeSet → ScopeSet
unfolding set_key add_all
enter scope implicants s = record s {
  scopes_to_implicants = set_key scope implicants s.scopes_to_implicants;
  implicants_to_scopes = add_all scope implicants s.implicants_to_scopes;
}

-- `_add_scope`
unfoldable pub add_scope : String → List String → ScopeSet → ScopeSet
unfolding has_some_scope enter remove_scopes get
add_scope scope implicants s =
    if has_some_scope implicants s
    then s
    else enter scope implicants (remove_scopes (get scope s.implicants_to_scopes) s)

-- the loop that adds the scopes of a dict that pass a test
unfoldable pub add_where : (List String → Bool) → Dict → ScopeSet → ScopeSet
unfolding add_scope
add_where test [] s = s
add_where test ((scope, implicants) ∷ d) s =
    add_where test d (if test implicants then add_scope scope implicants s else s)

-- `filtered`: of the first what the second implies
unfoldable pub filtered : ScopeSet → ScopeSet → ScopeSet
unfolding add_where has_some_scope
filtered s other = add_where (λ is. has_some_scope is other) s.scopes_to_implicants no_scopes

-- `difference`: of the first what the second does not imply
unfoldable pub difference : ScopeSet → ScopeSet → ScopeSet
unfolding add_where has_some_scope
difference s other =
    add_where (λ is. not (has_some_scope is other)) s.scopes_to_implicants no_scopes

unfoldable pub add_rows : Dict → ScopeSet → ScopeSet
unfolding add_scope
add_rows [] s = s
add_rows ((scope, implicants) ∷ d) s = add_rows d (add_scope scope implicants s)

unfoldable pub union : ScopeSet → ScopeSet → ScopeSet
unfolding add_rows
union s other = add_rows other.scopes_to_implicants (add_rows s.scopes_to_implicants no_scopes)

unfoldable pub contains_rows : ScopeSet → Dict → Bool
unfolding has_some_scope
contains_rows s [] = true
contains_rows s ((scope, implicants) ∷ d) = has_some_scope implicants s && contains_rows s d

-- `contains`: the first implies every scope of the second
unfoldable pub contains : ScopeSet → ScopeSet → Bool
unfolding contains_rows
contains s other = contains_rows s other.scopes_to_implicants

unfoldable pub has_any : Dict → Dict → Bool
unfolding has
has_any [] d = false
has_any ((k, _) ∷ e) d = has k d || has_any e d

unfoldable pub intersects : ScopeSet → ScopeSet → Bool
unfolding has_any
intersects s other =
    has_any other.implicants_to_scopes s.scopes_to_implicants
    || has_any s.implicants_to_scopes other.scopes_to_implicants

prepend : String → List String → Result ScopeError Dict → Result ScopeError Dict
prepend scope implicants (ok d) = ok ((scope, implicants) ∷ d)
prepend scope implicants (raised e) = raised e

with_implicants :
    String → Result ScopeError (List String) → Result ScopeError Dict → Result ScopeError Dict
unfolding prepend
with_implicants scope (raised e) rest = raised e
with_implicants scope (ok is) rest = prepend scope is rest

-- Each scope with its implicants, or the error of the first that has none.
unfoldable pub derived : List String → Result ScopeError Dict
unfolding with_implicants implicants
derived [] = ok []
derived (scope ∷ scopes) = with_implicants scope (implicants scope) (derived scopes)

unfoldable pub set_of : Result ScopeError Dict → Result ScopeError ScopeSet
unfolding add_rows
set_of (ok d) = ok (add_rows d no_scopes)
set_of (raised e) = raised e

-- `ScopeSet(scopes)` and `from_array`
unfoldable pub from_array : List String → Result ScopeError ScopeSet
unfolding derived set_of
from_array scopes = set_of (derived scopes)

nonempty : List String → List String
nonempty [] = []
nonempty (w ∷ ws) = let rest = nonempty ws in if str_eq w "" then rest else w ∷ rest

-- `from_string`
unfoldable pub from_string : String → Result ScopeError ScopeSet
unfolding from_array nonempty split
from_string value = from_array (nonempty (split b' ' value))
