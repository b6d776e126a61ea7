-- ===== src/SyncStorage/Body/Laws.antt =====
-- What a parsed body may hold.
use fxa_lite.Prelude.{
  ℕ, zero, suc, ◌+◌, ◌≤◌, String, ◌≡◌, true, Option, none, some, List, [], ◌∷◌, ◌++◌, arith, ltb,
  length, pop, All, All-append, inl, inr, subst, Bool-cases,
}
use fxa_lite.Prelude.Int.{ℤ}
use fxa_lite.Exec
use fxa_lite.Exec.{ok, raised}
use fxa_lite.SyncStorage.Model.{PostedBso}
use fxa_lite.SyncStorage.Store.Reads.{mem, codes}
use fxa_lite.SyncStorage.Body.{
  Value, null, boolean, integer, string, other, Fields, Reason, field, is_bso_id, checked_id,
  checked_sortindex, checked_ttl, bso_from_object, sortindex_in_range, payload_size, max_posted_ttl,
  max_post_bytes, max_post_records, Reason, retry_bso, Progress, set_item, sized, sorted_out,
  identified, take_item, take_items, shed, ◌>>=◌, last_id, parse_bso_bodies,
}

-- within the bounds of the fields
abbrev pub IsSortindex : Option ℤ → Type 0
IsSortindex none = Unit
IsSortindex (some i) = sortindex_in_range i ≡ true

abbrev pub IsTtl : Option ℕ → Type 0
IsTtl none = Unit
IsTtl (some n) = n ≤ max_posted_ttl

abbrev pub IsPosted : PostedBso → Type 0
IsPosted b = (is_bso_id (codes b.id) ≡ true) × IsSortindex b.sortindex × IsTtl b.ttl

-- what a result holds if it holds anything
abbrev pub AllOk : {E A : Type 0} → (A → Type 0) → Exec.Result E A → Type 0
AllOk P (ok a) = P a
AllOk P (raised e) = Unit

checked_id-AllOk : (v : Value) → AllOk (λ id. is_bso_id (codes id) ≡ true) (checked_id true v)
unfolding checked_id
checked_id-AllOk null = tt
checked_id-AllOk (boolean b) = tt
checked_id-AllOk (integer i) = tt
checked_id-AllOk (string s) = ground arith
checked_id-AllOk other = tt

checked_sortindex-AllOk : (v : Value) → AllOk IsSortindex (checked_sortindex v)
unfolding checked_sortindex
checked_sortindex-AllOk v = ground arith

checked_ttl-AllOk : (v : Value) → AllOk IsTtl (checked_ttl v)
unfolding checked_ttl
checked_ttl-AllOk v = ground arith

bso_from_object-AllOk : (fields : Fields) → AllOk IsPosted (bso_from_object fields true)
unfolding bso_from_object
bso_from_object-AllOk fields = ground (
  arith,
  checked_id-AllOk (field "id" fields),
  checked_sortindex-AllOk (field "sortindex" fields),
  checked_ttl-AllOk (field "ttl" fields),
)

unfoldable pub total_size : List PostedBso → ℕ
total_size [] = 0
total_size (b ∷ bsos) = payload_size b + total_size bsos

total_size-append :
    (bsos : List PostedBso) (b : PostedBso)
    → total_size (bsos ++ (b ∷ [])) ≡ total_size bsos + payload_size b
unfolding total_size
total_size-append [] b = omega arith
total_size-append (a ∷ bsos) b = omega (arith, total_size-append bsos b)

-- the records that are kept so far fit, and none of them is too large
abbrev Fits : Progress → Type 0
Fits p =
    All IsPosted p.valid
    × (total_size p.valid ≤ p.total_payload)
    × (total_size p.valid ≤ max_post_bytes)

sized-Fits : (b : PostedBso) (p : Progress) → IsPosted b → Fits p → Fits (sized b p)
unfolding sized
sized-Fits b p h fits =
    ground (arith, total_size-append p.valid b, All-append IsPosted p.valid (b ∷ []) fits.0 (h, tt))

sorted_out-Fits :
    (id : String) (r : Exec.Result Reason PostedBso) (p : Progress)
    → AllOk IsPosted r
    → Fits p
    → Fits (sorted_out id r p)
unfolding sorted_out
sorted_out-Fits id (raised reason) p h fits = fits
sorted_out-Fits id (ok b) p h fits = sized-Fits b p h fits

identified-Fits :
    (fields : Fields) (v : Value) (p : Progress) → Fits p → AllOk Fits (identified fields v p)
unfolding identified
identified-Fits fields null p fits = tt
identified-Fits fields (boolean b) p fits = tt
identified-Fits fields (integer i) p fits = tt
identified-Fits fields other p fits = tt
identified-Fits fields (string id) p fits = elim (Bool-cases (mem id p.seen)) [
  | inl twice ↦ rw twice tt
  | inr first ↦ rw first (
      sorted_out-Fits id (bso_from_object fields true) (record p { seen = id ∷ p.seen })
        (bso_from_object-AllOk fields) fits)
]

take_item-Fits : (item : Option Fields) (p : Progress) → Fits p → AllOk Fits (take_item item p)
unfolding take_item
take_item-Fits none p fits = tt
take_item-Fits (some fields) p fits = identified-Fits fields (field "id" fields) p fits

AllOk-bind :
    {E A B : Type 0} (P : A → Type 0) (Q : B → Type 0) (r : Exec.Result E A)
    (f : A → Exec.Result E B)
    → AllOk P r
    → ((a : A) → P a → AllOk Q (f a))
    → AllOk Q (r >>= f)
AllOk-bind P Q (ok a) f h k = k a h
AllOk-bind P Q (raised e) f h k = tt

take_items-Fits :
    (items : List (Option Fields)) (p : Progress) → Fits p → AllOk Fits (take_items items p)
unfolding take_items
take_items-Fits [] p fits = fits
take_items-Fits (item ∷ items) p fits =
    AllOk-bind Fits Fits (take_item item p) (take_items items) (take_item-Fits item p fits)
      (take_items-Fits items)

pop-Fits :
    (bsos : List PostedBso)
    → All IsPosted bsos
    → All IsPosted (pop bsos) × (total_size (pop bsos) ≤ total_size bsos)
unfolding total_size
pop-Fits [] h = (tt, omega arith)
pop-Fits (b ∷ []) h = (tt, omega arith)
pop-Fits (b ∷ c ∷ bsos) h =
    let rest = pop-Fits (c ∷ bsos) h.1 in ((h.0, rest.0), omega (arith, rest.1))

length-pop : (bsos : List PostedBso) (n : ℕ) → length bsos ≤ suc n → length (pop bsos) ≤ n
length-pop [] n h = omega arith
length-pop (b ∷ []) n h = omega arith
length-pop (b ∷ c ∷ bsos) zero h = absurd (omega arith)
length-pop (b ∷ c ∷ bsos) (suc n) h = omega (arith, length-pop (c ∷ bsos) n (omega arith))

shed-Fits :
    (fuel : ℕ) (p : Progress)
    → length p.valid ≤ max_post_records + fuel
    → Fits p
    → Fits (shed fuel p) × (length (shed fuel p).valid ≤ max_post_records)
unfolding shed
shed-Fits zero p h fits = (fits, omega arith)
shed-Fits (suc fuel) p h fits = elim (Bool-cases (ltb max_post_records (length p.valid))) [
  | inl over ↦
      let popped = pop-Fits p.valid fits.0 in
      rw over (
        shed-Fits fuel
          (record p {
            valid = pop p.valid;
            invalid = set_item (last_id p.valid) retry_bso p.invalid;
          })
          (length-pop p.valid (max_post_records + fuel) (omega arith))
          (popped.0, omega (arith, popped.1), omega (arith, popped.1)))
  | inr under ↦ rw under (fits, ground arith)
]

abbrev IsStorable : Progress → Type 0
IsStorable p =
    All IsPosted p.valid
    × (length p.valid ≤ max_post_records)
    × (total_size p.valid ≤ max_post_bytes)

parse_bso_bodies-AllOk : (raw : List (Option Fields)) → AllOk IsStorable (parse_bso_bodies raw)
unfolding parse_bso_bodies total_size
parse_bso_bodies-AllOk raw =
    AllOk-bind Fits IsStorable (take_items raw _) _
      (take_items-Fits raw _ (tt, omega arith, omega arith))
      (λ p fits.
        let kept = shed-Fits (length p.valid) p (omega arith) fits in (kept.0.0, kept.1, kept.0.2))

-- Whatever the objects of a POST body hold: if it is accepted, each record that will be stored has
-- an id, a sortindex and a ttl within the bounds, there are at most `max_post_records` of them,
-- and their payloads together are no larger than `max_post_bytes`.
pub parse_bso_bodies-IsPosted :
    (raw : List (Option Fields)) (p : Progress)
    → parse_bso_bodies raw ≡ ok p
    → All IsPosted p.valid
      × (length p.valid ≤ max_post_records)
      × (total_size p.valid ≤ max_post_bytes)
parse_bso_bodies-IsPosted raw p h = subst (AllOk IsStorable) h (parse_bso_bodies-AllOk raw)
