-- ===== src/SyncStorage/BatchId.antt =====
-- store.py `encode_batch_id` and `decode_batch_id`: base64 of the decimal text, and on the way back
-- the bare text too, which older clients hold.
use fxa_lite.Prelude.{
  ℕ, ◌≡◌, ◌≢◌, refl, Bool, true, ◌&&◌, Option, none, some, [], ◌∷◌, arith, ltb, if◌then◌else◌, All,
  All-map, length, ◌%◌, ◌≤◌,
}
use fxa_lite.Prelude.Int.{ℤ, pos}
use fxa_lite.Exec.{ok, raised}
use fxa_lite.Python.Decimal.{
  max_str_digits, decimal, int_of, int_of-decimal, IsDigit, decimal-IsDigit,
}
use fxa_lite.Python.Base64.{b64encode, b64decode, b64decode-b64encode, b64decode-none, IsByte}
use fxa_lite.SyncStorage.Model.{Text, Result, batch_not_found}

unfoldable pub encode_batch_id : ℕ → Text
encode_batch_id batch_id = b64encode (decimal batch_id)

all_ascii : Text → Bool
all_ascii [] = true
all_ascii (c ∷ text) = ltb c 128 && all_ascii text

-- `.decode("ascii")` of the bytes, and the value as it came where either decoding raises
ascii_or : Text → Option Text → Text
unfolding all_ascii
ascii_or value none = value
ascii_or value (some bytes) = if all_ascii bytes then bytes else value

int_or_raise : Text → Option ℤ → Result ℤ
int_or_raise value none = raised (batch_not_found value)
int_or_raise value (some n) = ok n

unfoldable pub decode_batch_id : Text → Result ℤ
unfolding ascii_or int_or_raise
decode_batch_id value = int_or_raise value (int_of (ascii_or value (b64decode value)))

all_ascii-digits : (text : Text) → All IsDigit text → all_ascii text ≡ true
unfolding all_ascii
all_ascii-digits [] h = refl
all_ascii-digits (c ∷ text) h = ground (arith, all_ascii-digits text h.1)

IsDigit-IsByte : (c : ℕ) → IsDigit c → IsByte c
IsDigit-IsByte c h = ground arith

-- A batch id that the server hands out decodes to the number it was made from, any number that
-- Python prints, of at most 4300 digits.
pub decode_batch_id-encode_batch_id :
    (batch_id : ℕ)
    → length (decimal batch_id) ≤ max_str_digits
    → decode_batch_id (encode_batch_id batch_id) ≡ ok (pos batch_id)
unfolding decode_batch_id encode_batch_id
decode_batch_id-encode_batch_id batch_id short =
    let digits = decimal-IsDigit batch_id in
    let bytes = All-map IsDigit IsByte (decimal batch_id) IsDigit-IsByte digits in
    rw (b64decode-b64encode (decimal batch_id) bytes, all_ascii-digits (decimal batch_id) digits)
      (rw (int_of-decimal batch_id short) refl)

-- A bare decimal id of a length that base64 does not have, and of at most 4300 digits, stands for its
-- own number.
pub decode_batch_id_bare :
    (batch_id : ℕ)
    → length (decimal batch_id) % 4 ≢ 0
    → length (decimal batch_id) ≤ max_str_digits
    → decode_batch_id (decimal batch_id) ≡ ok (pos batch_id)
unfolding decode_batch_id
decode_batch_id_bare batch_id h short =
    rw (b64decode-none (decimal batch_id) h) (rw (int_of-decimal batch_id short) refl)
