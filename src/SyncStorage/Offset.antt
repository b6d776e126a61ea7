-- ===== src/SyncStorage/Offset.antt =====
-- store.py: `quantize`, the offset token of a page and `encode_next_offset`.
pub mod Laws
use fxa_lite.Prelude.{
  ℕ, suc, ◌+◌, ◌-◌, ◌%◌, Bool, true, false, Option, none, some, List, [], ◌∷◌, ◌++◌, ◌==◌, ◌&&◌,
  if◌then◌else◌, length, pop, last_or,
}
use mathlib.Core.List.{reverse}
use fxa_lite.Prelude.Int.{ℤ, pos, negsuc}
use fxa_lite.Python.Decimal.{decimal, int_of}
use fxa_lite.SyncStorage.Model.{Text}

-- down to a whole hundredth of a second
unfoldable pub quantize : ℕ → ℕ
quantize milliseconds = milliseconds - milliseconds % 10

pub data Sorting : Type 0 where
  newest oldest index : Sorting

pub record Offset : Type 0 where
  pub timestamp : Option ℕ
  pub offset : ℕ

-- `Offset.__str__`
unfoldable pub to_text : Offset → Text
to_text o = elim o.timestamp [
  | none ↦ decimal o.offset
  | some t ↦ decimal t ++ (b':' ∷ decimal o.offset)
]

-- `_non_negative`, where `none` is the ValueError
natural : Option ℤ → Option ℕ
natural none = none
natural (some (pos n)) = some n
natural (some (negsuc n)) = none

unfoldable pub non_negative : Text → Option ℕ
unfolding natural
non_negative value = natural (int_of value)

-- `value.partition(":")`: the head, and the tail if there is a colon
unfoldable pub partition_colon : Text → Text × Option Text
partition_colon [] = ([], none)
partition_colon (c ∷ text) =
    let rest = partition_colon text in if c == b':' then ([], some text) else (c ∷ rest.0, rest.1)

joined : Option ℕ → Option ℕ → Option Offset
joined none tail = none
joined (some t) none = none
joined (some t) (some n) = some (record { timestamp = some (quantize t); offset = n })

bare : Option ℕ → Option Offset
bare none = none
bare (some n) = some (record { timestamp = none; offset = n })

parts : Text → Text × Option Text → Option Offset
parts value (head, none) = bare (non_negative value)
parts value (head, some tail) = joined (non_negative head) (non_negative tail)

-- `Offset.parse`, where `none` is the ValueError
unfoldable pub parse : Text → Option Offset
unfolding parts joined bare
parse value = parts value (partition_colon value)

-- `for value in reversed(...)`: how many values stand before the first that differs
unfoldable pub run_length : ℕ → List ℕ → ℕ
run_length bound [] = 0
run_length bound (value ∷ values) =
    let more = suc (run_length bound values) in if value == bound then more else 0

unfoldable pub is_at : ℕ → Option ℕ → Bool
is_at bound none = false
is_at bound (some t) = t == bound

unfoldable pub after_records : ℕ → Option ℕ → List ℕ → Offset
after_records prev_offset prev_timestamp [] = record { timestamp = none; offset = prev_offset }
after_records prev_offset prev_timestamp (m ∷ ms) =
    let bound = last_or m ms in
    let skip = suc (run_length bound (reverse (pop (m ∷ ms)))) in
    record {
      timestamp = some (quantize bound);
      offset =
          if skip == length (m ∷ ms) && is_at bound prev_timestamp
          then skip + prev_offset
          else skip;
    }

-- The token before it is printed; `modified` holds the timestamps of the page.
unfoldable pub next_offset : Option Sorting → ℕ → Option ℕ → List ℕ → Offset
unfolding after_records
next_offset (some index) prev_offset prev_timestamp modified = record {
  timestamp = none;
  offset = prev_offset + length modified;
}
next_offset sort prev_offset prev_timestamp modified =
    after_records prev_offset prev_timestamp modified

unfoldable pub encode_next_offset : Option Sorting → ℕ → Option ℕ → List ℕ → Text
unfolding to_text next_offset
encode_next_offset sort prev_offset prev_timestamp modified =
    to_text (next_offset sort prev_offset prev_timestamp modified)
