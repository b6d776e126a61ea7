-- ===== src/SyncStorage/Body.antt =====
-- models.py `_bso_from_object` and `parse_bso_bodies`, on the objects that json.loads has made of
-- the body.
pub mod Laws
use fxa_lite.Prelude.{
  ℕ, zero, suc, ◌+◌, String, count, Bool, not, true, false, Option, none, some, List, [], ◌∷◌, ◌++◌,
  ◌&&◌, ◌||◌, ◌==◌, ltb, leb, str_eq, if◌then◌else◌, length, pop,
}
use fxa_lite.Prelude.Int.{ℤ, pos, negsuc, leb_ℤ}
use fxa_lite.Exec
use fxa_lite.Exec.{ok, raised}
use fxa_lite.Table.{select}
use fxa_lite.Table.Order.{sort_by}
use fxa_lite.SyncStorage.Model.{Text, PostedBso, SyncStorageError}
use fxa_lite.SyncStorage.Store.Reads.{mem, codes, text_leb}

-- What a field can hold; `other` is a number with a fraction, a list or an object.
pub data Value : Type 0 where
  null : Value
  boolean : Bool → Value
  integer : ℤ → Value
  string : String → Value
  other : Value

abbrev pub Fields : Type 0
Fields = List (String × Value)

pub data Reason : Type 0 where
  unknown_field : String → Reason
  invalid_id invalid_payload invalid_sortindex invalid_ttl retry_bytes retry_bso : Reason

abbrev pub max_sortindex : ℕ
max_sortindex = 999999999

abbrev pub max_posted_ttl : ℕ
max_posted_ttl = 999999999

-- `LIMITS`
abbrev pub max_post_bytes : ℕ
max_post_bytes = 2621440

abbrev pub max_post_records : ℕ
max_post_records = 100

abbrev pub max_record_payload_bytes : ℕ
max_record_payload_bytes = 2621440

-- `value.get(key)`, null where the key is missing
unfoldable pub field : String → Fields → Value
field key [] = null
field key ((k, v) ∷ fields) = if str_eq k key then v else field key fields

-- `^[ -~]{1,64}$`; the dollar also matches before a line feed that ends the text
abbrev printable : ℕ → Bool
printable c = leb 32 c && leb c 126

at_end : Text → Bool
at_end [] = true
at_end (c ∷ []) = c == 10
at_end _ = false

up_to : ℕ → Text → Bool
up_to zero text = at_end text
up_to (suc n) [] = true
up_to (suc n) (c ∷ text) = at_end (c ∷ text) || (printable c && up_to n text)

unfoldable pub is_bso_id : Text → Bool
unfolding at_end up_to
is_bso_id [] = false
is_bso_id (c ∷ text) = printable c && up_to 63 text

known_fields : List String
known_fields = "id" ∷ "sortindex" ∷ "payload" ∷ "ttl" ∷ "modified" ∷ "collection" ∷ []

keys : Fields → List String
keys [] = []
keys ((k, _) ∷ fields) = k ∷ keys fields

refuse_first : List String → Exec.Result Reason Unit
refuse_first [] = ok tt
refuse_first (name ∷ _) = raised (unknown_field name)

-- `sorted(unknown)[0]`
unfoldable pub refuse_unknown : Fields → Exec.Result Reason Unit
unfolding known_fields keys refuse_first
refuse_unknown fields = refuse_first (
    sort_by (λ a b. text_leb (codes a) (codes b))
      (select (λ k. not (mem k known_fields)) (keys fields)))

unfoldable pub checked_id : Bool → Value → Exec.Result Reason String
checked_id true null = raised invalid_id
checked_id false null = ok ""
checked_id _ (string id) = if is_bso_id (codes id) then ok id else raised invalid_id
checked_id _ _ = raised invalid_id

unfoldable pub checked_payload : Value → Exec.Result Reason (Option String)
checked_payload null = ok none
checked_payload (string payload) = ok (some payload)
checked_payload _ = raised invalid_payload

abbrev pub sortindex_in_range : ℤ → Bool
sortindex_in_range i = leb_ℤ (negsuc 999999998) i && leb_ℤ i (pos max_sortindex)

unfoldable pub checked_sortindex : Value → Exec.Result Reason (Option ℤ)
checked_sortindex null = ok none
checked_sortindex (integer i) =
    if sortindex_in_range i then ok (some i) else raised invalid_sortindex
checked_sortindex _ = raised invalid_sortindex

unfoldable pub checked_ttl : Value → Exec.Result Reason (Option ℕ)
checked_ttl null = ok none
checked_ttl (integer (pos n)) = if leb n max_posted_ttl then ok (some n) else raised invalid_ttl
checked_ttl _ = raised invalid_ttl

infixl 20 ◌>>=◌
abbrev pub ◌>>=◌ : {E A B : Type 0} → Exec.Result E A → (A → Exec.Result E B) → Exec.Result E B
r >>= f = elim r [ ok a ↦ f a | raised e ↦ raised e ]

unfoldable pub bso_from_object : Fields → Bool → Exec.Result Reason PostedBso
bso_from_object fields require_id = do
  _ ← refuse_unknown fields
  id ← checked_id require_id (field "id" fields)
  payload ← checked_payload (field "payload" fields)
  sortindex ← checked_sortindex (field "sortindex" fields)
  ttl ← checked_ttl (field "ttl" fields)
  ok (record { id = id; payload = payload; sortindex = sortindex; ttl = ttl })

abbrev pub payload_size : PostedBso → ℕ
payload_size bso = elim bso.payload [ none ↦ 0 | some payload ↦ count payload ]

abbrev pub invalid_wbo : SyncStorageError
invalid_wbo = record { status_code = 400; weave = 8; retry_after = none }

-- `PostedBsos` with the two local variables of the loop
pub record Progress : Type 0 where
  pub valid : List PostedBso
  pub invalid : List (String × Reason)
  pub seen : List String
  pub total_payload : ℕ

-- `result.invalid[id] = reason`
unfoldable pub set_item : String → Reason → List (String × Reason) → List (String × Reason)
set_item id reason [] = (id, reason) ∷ []
set_item id reason ((k, r) ∷ items) =
    let rest = set_item id reason items in
    if str_eq k id then (k, reason) ∷ items else (k, r) ∷ rest

unfoldable pub sized : PostedBso → Progress → Progress
sized bso p =
    let total = p.total_payload + payload_size bso in
    if ltb max_record_payload_bytes (payload_size bso) || ltb max_post_bytes total
    then record p { invalid = set_item bso.id retry_bytes p.invalid; total_payload = total }
    else record p { valid = p.valid ++ (bso ∷ []); total_payload = total }

unfoldable pub sorted_out : String → Exec.Result Reason PostedBso → Progress → Progress
sorted_out id (raised reason) p = record p { invalid = set_item id reason p.invalid }
sorted_out id (ok bso) p = sized bso p

unfoldable pub identified : Fields → Value → Progress → Exec.Result SyncStorageError Progress
identified fields (string id) p =
    if mem id p.seen
    then raised invalid_wbo
    else ok (sorted_out id (bso_from_object fields true) (record p { seen = id ∷ p.seen }))
identified fields _ p = raised invalid_wbo

-- one turn of the loop; `none` is an item that is no object
unfoldable pub take_item : Option Fields → Progress → Exec.Result SyncStorageError Progress
take_item none p = raised invalid_wbo
take_item (some fields) p = identified fields (field "id" fields) p

unfoldable pub take_items : List (Option Fields) → Progress → Exec.Result SyncStorageError Progress
take_items [] p = ok p
take_items (item ∷ items) p = take_item item p >>= take_items items

last_id : List PostedBso → String
last_id [] = ""
last_id (b ∷ []) = b.id
last_id (b ∷ c ∷ bsos) = last_id (c ∷ bsos)

-- the records past the cap, on fuel for each record
unfoldable pub shed : ℕ → Progress → Progress
unfolding last_id
shed zero p = p
shed (suc fuel) p =
    let rest = shed fuel (record p {
      valid = pop p.valid;
      invalid = set_item (last_id p.valid) retry_bso p.invalid;
    }) in
    if ltb max_post_records (length p.valid) then rest else p

unfoldable pub parse_bso_bodies : List (Option Fields) → Exec.Result SyncStorageError Progress
parse_bso_bodies raw = do
  p ← take_items raw (record { valid = []; invalid = []; seen = []; total_payload = 0 })
  ok (shed (length p.valid) p)
