-- ===== src/SyncStorage/Offset/Laws.antt =====
-- Offset tokens survive the trip through the client, and timestamps are rounded once.
use fxa_lite.Prelude.{
  ℕ, ◌≡◌, refl, Option, none, some, [], ◌∷◌, ◌++◌, arith, All, ◌%◌, ◌≤◌, length, length-append,
}
use fxa_lite.Python.Decimal.{max_str_digits, decimal, int_of-decimal, IsDigit, decimal-IsDigit}
use fxa_lite.SyncStorage.Model.{Text}
use fxa_lite.SyncStorage.Offset.{Offset, quantize, to_text, parse, partition_colon, non_negative}

pub quantize_id : (t : ℕ) → t % 10 ≡ 0 → quantize t ≡ t
unfolding quantize
quantize_id t h = omega arith

partition_colon-digits : (xs : Text) → All IsDigit xs → partition_colon xs ≡ (xs, none)
unfolding partition_colon
partition_colon-digits [] h = refl
partition_colon-digits (c ∷ xs) h = ground (arith, partition_colon-digits xs h.1)

partition_colon-append :
    (xs ys : Text) → All IsDigit xs → partition_colon (xs ++ (b':' ∷ ys)) ≡ (xs, some ys)
unfolding partition_colon
partition_colon-append [] ys h = refl
partition_colon-append (c ∷ xs) ys h = ground (arith, partition_colon-append xs ys h.1)

non_negative-decimal :
    (n : ℕ) → length (decimal n) ≤ max_str_digits → non_negative (decimal n) ≡ some n
unfolding non_negative
non_negative-decimal n short = rw (int_of-decimal n short) refl

parse-to_text-none :
    (n : ℕ)
    → length (decimal n) ≤ max_str_digits
    → parse (to_text (record { timestamp = none; offset = n }))
      ≡ some (record { timestamp = none; offset = n })
unfolding parse to_text
parse-to_text-none n short =
    rw (partition_colon-digits (decimal n) (decimal-IsDigit n), non_negative-decimal n short) refl

pub parse-to_text-some :
    (t n : ℕ)
    → length (decimal t) ≤ max_str_digits
    → length (decimal n) ≤ max_str_digits
    → parse (to_text (record { timestamp = some t; offset = n }))
      ≡ some (record { timestamp = some (quantize t); offset = n })
unfolding parse to_text
parse-to_text-some t n short few =
    rw
      (
        partition_colon-append (decimal t) (decimal n) (decimal-IsDigit t),
        non_negative-decimal t short,
        non_negative-decimal n few,
      )
      refl

-- A token that the server prints parses to the offset that it was printed from, its timestamp
-- rounded down to whole hundredths of a second, if it has at most the 4300 characters that Python
-- takes for an integer.
pub parse-to_text :
    (o : Offset)
    → length (to_text o) ≤ max_str_digits
    → parse (to_text o)
      ≡ some
          (record o { timestamp = elim o.timestamp [ none ↦ none | some t ↦ some (quantize t) ] })
unfolding to_text
parse-to_text o = by_timestamp o.timestamp o.offset
  where
    by_timestamp :
        (t : Option ℕ) (n : ℕ)
        → length (to_text (record { timestamp = t; offset = n })) ≤ max_str_digits
        → parse (to_text (record { timestamp = t; offset = n }))
          ≡ some (record {
            timestamp = elim t [ none ↦ none | some m ↦ some (quantize m) ];
            offset = n;
          })
    by_timestamp none n h = parse-to_text-none n h
    by_timestamp (some t) n h =
        parse-to_text-some t n (omega (arith, length-append (decimal t) (b':' ∷ decimal n)))
          (omega (arith, length-append (decimal t) (b':' ∷ decimal n)))
