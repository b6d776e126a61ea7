-- ===== src/SyncStorage/Store/Reads.antt =====
-- store.py: `get_bso` and `get_bsos`, the paginated read of a collection.
use fxa_lite.Prelude.{
  ℕ, suc, ◌+◌, String, Bool, not, true, false, Option, none, some, List, [], ◌∷◌, map, ◌==◌, ◌&&◌,
  ◌||◌, ltb, leb, str_eq, if◌then◌else◌, length, take, drop, pop, get_or,
}
use Prim.Native.Char.{code}
use fxa_lite.Prelude.Int.{ℤ, leb_ℤ}
use fxa_lite.Exec.{ok}
use fxa_lite.Python.Decimal.{decimal}
use fxa_lite.Table.{select, fetch_one}
use fxa_lite.Table.Order.{sort_by}
use fxa_lite.SyncStorage.Model.{
  Text, BsoRow, Bso, bso_of_row, Db, Result, SyncStore, in_collection, at_bso,
}
use fxa_lite.SyncStorage.Offset.{Sorting, newest, oldest, index, Offset, encode_next_offset}
use fxa_lite.SyncStorage.Store.Collections.{collection_id}
use fxa_lite.SyncStorage.Store.Timestamps.{◌>>=◌}

abbrev pub default_limit : ℕ
default_limit = 10000

-- `BsoQuery`. A limit below 0 never passes `parse_query`, and is no value of the model.
pub record BsoQuery : Type 0 where
  pub newer : Option ℕ
  pub older : Option ℕ
  pub sort : Option Sorting
  pub limit : Option ℕ
  pub offset : Option Offset
  pub ids : List String

-- what a page holds: whole records with `full`, ids without
pub data Items : Type 0 where
  records : List Bso → Items
  bso_ids : List String → Items

pub record Page : Type 0 where
  pub items : Items
  pub offset : Option Text

-- The code points of a text, by which sqlite orders the ids (they are printable ASCII).
abbrev pub codes : String → Text
codes String.[] = []
codes (String.◌∷◌ c s) = code c ∷ codes s

unfoldable pub text_leb : Text → Text → Bool
text_leb [] ys = true
text_leb (x ∷ xs) [] = false
text_leb (x ∷ xs) (y ∷ ys) = ltb x y || (x == y && text_leb xs ys)

-- sqlite sorts NULL before every number
sortindex_leb : Option ℤ → Option ℤ → Bool
sortindex_leb none b = true
sortindex_leb (some a) none = false
sortindex_leb (some a) (some b) = leb_ℤ a b

-- the entries of `orders`: may the first row come before the second?
unfoldable pub first_newest : BsoRow → BsoRow → Bool
unfolding text_leb
first_newest r s =
    ltb s.modified r.modified || (r.modified == s.modified && text_leb (codes s.id) (codes r.id))

unfoldable pub first_oldest : BsoRow → BsoRow → Bool
unfolding text_leb
first_oldest r s =
    ltb r.modified s.modified || (r.modified == s.modified && text_leb (codes r.id) (codes s.id))

unfoldable pub first_index : BsoRow → BsoRow → Bool
unfolding sortindex_leb
first_index r s = sortindex_leb s.sortindex r.sortindex

-- `orders.get(query.sort or ("newest" if full else ""), "")`
unfoldable pub order_rows : Option Sorting → Bool → List BsoRow → List BsoRow
order_rows (some newest) full rows = sort_by first_newest rows
order_rows (some oldest) full rows = sort_by first_oldest rows
order_rows (some index) full rows = sort_by first_index rows
order_rows none true rows = sort_by first_newest rows
order_rows none false rows = rows

unfoldable pub mem : String → List String → Bool
mem x [] = false
mem x (y ∷ ys) = str_eq y x || mem x ys

listed : List String → String → Bool
listed [] id = true
listed (x ∷ xs) id = mem id (x ∷ xs)

unfoldable pub below : Option ℕ → ℕ → Bool
below none m = true
below (some older) m = ltb m older

unfoldable pub above : Option ℕ → ℕ → Bool
above none m = true
above (some newer) m = ltb newer m

-- `offset.timestamp`, which bounds a page of records in the direction that the sort runs
abbrev pub bound_of : BsoQuery → Option ℕ
bound_of query = elim query.offset [ none ↦ none | some o ↦ o.timestamp ]

abbrev pub rows_to_skip : BsoQuery → ℕ
rows_to_skip query = elim query.offset [ none ↦ 0 | some o ↦ o.offset ]

unfoldable pub resumes : Option Sorting → Option ℕ → ℕ → Bool
resumes sort none m = true
resumes (some oldest) (some bound) m = leb bound m
resumes (some index) (some bound) m = true
resumes sort (some bound) m = leb m bound

abbrev pub limit_of : BsoQuery → ℕ
limit_of query = get_or default_limit query.limit

module _ (store : SyncStore) where
  bso_or_none : Option BsoRow → Option Bso
  bso_or_none none = none
  bso_or_none (some row) = some (bso_of_row row)

  unfoldable pub get_bso : String → String → Db → Result (Option Bso)
  unfolding collection_id fetch_one bso_or_none bso_of_row
  get_bso collection bso_id db = do
    c ← collection_id collection db
    ok (
        bso_or_none
          (fetch_one (λ r. at_bso store.uid c bso_id r && ltb store.now r.expiry) db.bsos))

  -- the conditions of the WHERE clause that every page shares
  unfoldable pub wanted : ℕ → BsoQuery → BsoRow → Bool
  unfolding below above listed mem
  wanted c query r =
      in_collection store.uid c r
      && ltb store.now r.expiry
      && below query.older r.modified
      && above query.newer r.modified
      && listed query.ids r.id

  -- all of them
  unfoldable pub where_clause : ℕ → BsoQuery → Bool → BsoRow → Bool
  where_clause c query full r =
      wanted c query r && (not full || resumes query.sort (bound_of query) r.modified)

  -- `LIMIT ? OFFSET ?`, one row more than asked for
  unfoldable pub fetched : ℕ → BsoQuery → Bool → Db → List BsoRow
  fetched c query full db = take (if ltb 0 (limit_of query) then suc (limit_of query) else 0) (
      drop (rows_to_skip query)
        (order_rows query.sort full (select (where_clause c query full) db.bsos)))

page_of_records : BsoQuery → List BsoRow → Page
page_of_records query rows =
    let kept = pop rows in
    if ltb (limit_of query) (length rows)
    then record {
      items = records (map bso_of_row kept);
      offset = some (
          encode_next_offset query.sort (rows_to_skip query) (bound_of query)
            (map (λ r. r.modified) kept));
    }
    else record {
      items = records (map bso_of_row rows);
      offset = if limit_of query == 0 then some (b'0' ∷ []) else none;
    }

page_of_ids : BsoQuery → List BsoRow → Page
page_of_ids query rows =
    if ltb (limit_of query) (length rows)
    then record {
      items = bso_ids (map (λ r. r.id) (pop rows));
      offset = some (decimal (limit_of query + rows_to_skip query));
    }
    else record { items = bso_ids (map (λ r. r.id) rows); offset = none }

page_of : BsoQuery → Bool → List BsoRow → Page
page_of query true rows = page_of_records query rows
page_of query false rows = page_of_ids query rows

unfoldable pub get_bsos : SyncStore → String → BsoQuery → Bool → Db → Result Page
unfolding page_of page_of_records page_of_ids
get_bsos store collection query full db = do
  c ← collection_id collection db
  ok (page_of query full (fetched store c query full db))
