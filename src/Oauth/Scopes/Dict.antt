-- ===== src/Oauth/Scopes/Dict.antt =====
-- What the operations on the two dicts leave at a key.
use Prim.Native.String.{String}
use fxa_lite.Prelude.{
  true, false, not, ◌&&◌, ◌||◌, ◌≡◌, refl, List, [], ◌∷◌, arith, str_eq, eq_iff, if◌then◌else◌,
}
use fxa_lite.Python.Strings.{is_in}
use fxa_lite.Oauth.Scopes.{
  Dict, get, has, set_key, delete_key, add_to, without, keep_nonempty, discard_from, discard_all,
  add_all, has_some,
}

module _ (k x : String) where
  pub get-delete_key : (d : Dict) → get x (delete_key k d) ≡ (if str_eq k x then [] else get x d)
  unfolding get delete_key
  get-delete_key [] = ground arith
  get-delete_key ((j, vs) ∷ d) =
      ground (arith, eq_iff k x, eq_iff j k, eq_iff j x, get-delete_key d)

  pub has-delete_key : (d : Dict) → has x (delete_key k d) ≡ not (str_eq k x) && has x d
  unfolding has delete_key
  has-delete_key [] = ground arith
  has-delete_key ((j, vs) ∷ d) =
      ground (arith, eq_iff k x, eq_iff j k, eq_iff j x, has-delete_key d)

  module _ (vs : List String) where
    pub get-set_key : (d : Dict) → get x (set_key k vs d) ≡ (if str_eq k x then vs else get x d)
    unfolding get set_key
    get-set_key [] = refl
    get-set_key ((j, ws) ∷ d) = ground (arith, eq_iff k x, eq_iff j k, eq_iff j x, get-set_key d)

    pub has-set_key : (d : Dict) → has x (set_key k vs d) ≡ str_eq k x || has x d
    unfolding has set_key
    has-set_key [] = refl
    has-set_key ((j, ws) ∷ d) = ground (arith, eq_iff k x, eq_iff j k, eq_iff j x, has-set_key d)

  module _ (v t : String) where
    pub is_in-add_to :
        (d : Dict)
        → is_in t (get x (add_to k v d)) ≡ (str_eq k x && str_eq v t) || is_in t (get x d)
    unfolding get add_to is_in
    is_in-add_to [] = ground (arith, eq_iff k x)
    is_in-add_to ((j, ws) ∷ d) =
        ground (arith, eq_iff k x, eq_iff j k, eq_iff j x, eq_iff v t, is_in-add_to d)

is_in-without :
    (v t : String) (ws : List String) → is_in t (without v ws) ≡ not (str_eq v t) && is_in t ws
unfolding is_in without
is_in-without v t [] = ground arith
is_in-without v t (w ∷ ws) =
    ground (arith, eq_iff w v, eq_iff w t, eq_iff v t, is_in-without v t ws)

is_in-keep_nonempty :
    (k x t : String) (ws : List String) (d : Dict)
    → is_in t (get x (keep_nonempty k ws d)) ≡ is_in t (if str_eq k x then ws else get x d)
unfolding keep_nonempty get
is_in-keep_nonempty k x t [] d = rw (get-delete_key k x d) refl
is_in-keep_nonempty k x t (w ∷ ws) d = refl

module _ (k v x t : String) where
  pub is_in-discard_from :
      (d : Dict)
      → is_in t (get x (discard_from k v d)) ≡ not (str_eq k x && str_eq v t) && is_in t (get x d)
  unfolding get discard_from is_in
  is_in-discard_from [] = ground arith
  is_in-discard_from ((j, ws) ∷ d) = ground (
    arith,
    eq_iff k x,
    eq_iff j k,
    eq_iff j x,
    is_in-keep_nonempty j x t (without v ws) d,
    is_in-without v t ws,
    is_in-discard_from d,
  )

module _ (v x t : String) where
  pub is_in-discard_all :
      (is : List String) (d : Dict)
      → is_in t (get x (discard_all v is d)) ≡ not (is_in x is && str_eq v t) && is_in t (get x d)
  unfolding discard_all is_in
  is_in-discard_all [] d = ground arith
  is_in-discard_all (i ∷ is) d =
      ground (arith, is_in-discard_all is (discard_from i v d), is_in-discard_from i v x t d)

  pub is_in-add_all :
      (is : List String) (d : Dict)
      → is_in t (get x (add_all v is d)) ≡ (is_in x is && str_eq v t) || is_in t (get x d)
  unfolding add_all is_in
  is_in-add_all [] d = ground arith
  is_in-add_all (i ∷ is) d = ground (arith, is_in-add_all is (add_to i v d), is_in-add_to i x v t d)

pub get-missing : (k : String) (d : Dict) → has k d ≡ false → get k d ≡ []
unfolding get has
get-missing k [] h = refl
get-missing k ((j, vs) ∷ d) h = ground (arith, get-missing k d)

pub has_some-false :
    (x : String) (is : List String) (d : Dict)
    → has_some is d ≡ false
    → is_in x is ≡ true
    → has x d ≡ false
unfolding has_some is_in
has_some-false x [] d h e = ground arith
has_some-false x (i ∷ is) d h e = ground (arith, eq_iff i x, has_some-false x is d)
