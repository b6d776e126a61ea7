-- ===== src/Python/Decimal.antt =====
-- `str(n)` and `int(text)`. Text is a list of code points. `int` also takes the decimal digits of
-- other scripts, which the model refuses. It refuses a text of more than 4300 digits, and `str` prints
-- no such number; `decimal` is `str` on the others.
use fxa_lite.Prelude.{
  ℕ, zero, suc, ◌+◌, ◌-◌, ◌*◌, ◌/◌, ◌%◌, ◌<◌, ◌≡◌, refl, ap, ◌∙◌, inl, inr, Bool, true, false, ◌&&◌,
  ◌||◌, Option, none, some, List, [], ◌∷◌, ◌++◌, arith, ltb, leb, ◌==◌, if◌then◌else◌, Bool-cases,
  All, All-append, length, length-append, ◌≤◌, ◌^◌,
}
use fxa_lite.Prelude.Int.{ℤ, pos, negsuc}

abbrev pub is_digit : ℕ → Bool
is_digit c = leb b'0' c && leb c b'9'

-- The white space of ASCII, the four separators included.
abbrev is_space : ℕ → Bool
is_space c = (leb 9 c && leb c 13) || (leb 28 c && leb c 32)

decimal_upto : ℕ → ℕ → List ℕ
decimal_upto zero n = []
decimal_upto (suc fuel) n =
    let front = decimal_upto fuel (n / 10) in
    if ltb n 10 then (b'0' + n) ∷ [] else front ++ ((b'0' + n % 10) ∷ [])

-- A number has no more digits than its value and one.
unfoldable pub decimal : ℕ → List ℕ
unfolding decimal_upto
decimal n = decimal_upto (suc n) n

-- Digits with single underscores between them; the flag says that the last character was a digit.
digits_value : ℕ → Bool → List ℕ → Option ℕ
digits_value acc true [] = some acc
digits_value acc false [] = none
digits_value acc after_digit (c ∷ text) =
    let rest = digits_value (if is_digit c then acc * 10 + (c - b'0') else acc) (is_digit c) text in
    if is_digit c || (c == b'_' && after_digit) then rest else none

left_strip : List ℕ → List ℕ
left_strip [] = []
left_strip (c ∷ text) = let rest = left_strip text in if is_space c then rest else c ∷ text

right_strip : List ℕ → List ℕ
right_strip [] = []
right_strip (c ∷ text) = elim (right_strip text) [
  | [] ↦ if is_space c then [] else c ∷ []
  | d ∷ rest ↦ c ∷ d ∷ rest
]

negated : ℕ → ℤ
negated zero = pos zero
negated (suc n) = negsuc n

positive_value : Option ℕ → Option ℤ
positive_value none = none
positive_value (some n) = some (pos n)

negative_value : Option ℕ → Option ℤ
negative_value none = none
negative_value (some n) = some (negated n)

signed_value : List ℕ → Option ℤ
signed_value [] = none
signed_value (c ∷ text) =
    if c == b'-'
    then negative_value (digits_value 0 false text)
    else if c == b'+'
    then positive_value (digits_value 0 false text)
    else positive_value (digits_value 0 false (c ∷ text))

-- `sys.int_info.default_max_str_digits`
abbrev pub max_str_digits : ℕ
max_str_digits = 4300

digit_count : List ℕ → ℕ
digit_count [] = 0
digit_count (c ∷ text) = let rest = digit_count text in if is_digit c then suc rest else rest

-- `int(text)`, where `none` is the ValueError
unfoldable pub int_of : List ℕ → Option ℤ
unfolding digit_count signed_value digits_value left_strip right_strip negated positive_value
    negative_value
int_of text =
    if leb (digit_count text) max_str_digits
    then signed_value (right_strip (left_strip text))
    else none

digits_value-concat :
    (acc : ℕ) (p : Bool) (xs : List ℕ) (d v : ℕ)
    → d < 10
    → digits_value acc p xs ≡ some v
    → digits_value acc p (xs ++ ((b'0' + d) ∷ [])) ≡ some (v * 10 + d)
unfolding digits_value
digits_value-concat acc true [] d v h e = ground arith
digits_value-concat acc false [] d v h e = cc
digits_value-concat acc true (c ∷ xs) d v h e = ground (
  arith,
  digits_value-concat (if is_digit c then acc * 10 + (c - b'0') else acc) (is_digit c) xs d v h,
)
digits_value-concat acc false (c ∷ xs) d v h e = ground (
  arith,
  digits_value-concat (if is_digit c then acc * 10 + (c - b'0') else acc) (is_digit c) xs d v h,
)

digits_value-decimal_upto :
    (fuel n : ℕ) → n < fuel → digits_value 0 false (decimal_upto fuel n) ≡ some n
unfolding decimal_upto
digits_value-decimal_upto zero n h = absurd (omega arith)
digits_value-decimal_upto (suc fuel) n h = elim (Bool-cases (ltb n 10)) [
  | inl small ↦ rw small (unfold digits_value in ground arith)
  | inr large ↦ rw large (
      digits_value-concat 0 false (decimal_upto fuel (n / 10)) (n % 10) (n / 10) (omega arith)
        (digits_value-decimal_upto fuel (n / 10) (ground arith))
      ∙ ap some (omega arith))
]

abbrev pub IsDigit : ℕ → Type 0
IsDigit c = is_digit c ≡ true

decimal_upto-IsDigit : (fuel n : ℕ) → All IsDigit (decimal_upto fuel n)
unfolding decimal_upto
decimal_upto-IsDigit zero n = tt
decimal_upto-IsDigit (suc fuel) n = elim (Bool-cases (ltb n 10)) [
  | inl small ↦ rw small (ground arith, tt)
  | inr large ↦ rw large (
      All-append IsDigit (decimal_upto fuel (n / 10)) ((b'0' + n % 10) ∷ [])
        (decimal_upto-IsDigit fuel (n / 10)) (ground arith, tt))
]

left_strip-digits : (xs : List ℕ) → All IsDigit xs → left_strip xs ≡ xs
unfolding left_strip
left_strip-digits [] h = refl
left_strip-digits (c ∷ xs) h = ground arith

right_strip-digits : (xs : List ℕ) → All IsDigit xs → right_strip xs ≡ xs
unfolding right_strip
right_strip-digits [] h = refl
right_strip-digits (c ∷ []) h = ground arith
right_strip-digits (c ∷ d ∷ xs) h = ground (arith, right_strip-digits (d ∷ xs) h.1)

signed_value-digits :
    (xs : List ℕ) (n : ℕ)
    → All IsDigit xs
    → digits_value 0 false xs ≡ some n
    → signed_value xs ≡ some (pos n)
unfolding signed_value positive_value
signed_value-digits [] n h e = unfold digits_value in cc
signed_value-digits (c ∷ xs) n h e = ground arith

digit_count-le : (xs : List ℕ) → digit_count xs ≤ length xs
unfolding digit_count
digit_count-le [] = omega arith
digit_count-le (c ∷ xs) = ground (arith, digit_count-le xs)

-- `int(str(n))` is `n`.
pub int_of-decimal :
    (n : ℕ) → length (decimal n) ≤ max_str_digits → int_of (decimal n) ≡ some (pos n)
unfolding decimal
int_of-decimal n short =
    let all = decimal_upto-IsDigit (suc n) n in
    let few : leb (digit_count (decimal_upto (suc n) n)) max_str_digits ≡ true =
      ground (arith, digit_count-le (decimal_upto (suc n) n)) in
    unfold int_of in
    rw (few, left_strip-digits _ all, right_strip-digits _ all)
      (signed_value-digits _ n all (digits_value-decimal_upto (suc n) n (omega arith)))

pub decimal-IsDigit : (n : ℕ) → All IsDigit (decimal n)
unfolding decimal
decimal-IsDigit n = decimal_upto-IsDigit (suc n) n

ten_to : ℕ → ℕ
ten_to zero = 1
ten_to (suc k) = 10 * ten_to k

length-decimal_upto : (fuel n k : ℕ) → n < 10 * ten_to k → length (decimal_upto fuel n) ≤ suc k
unfolding decimal_upto ten_to
length-decimal_upto zero n k h = omega arith
length-decimal_upto (suc fuel) n zero h =
    let small : ltb n 10 ≡ true = ground arith in rw small (omega arith)
length-decimal_upto (suc fuel) n (suc j) h = elim (Bool-cases (ltb n 10)) [
  | inl small ↦ rw small (omega arith)
  | inr large ↦ rw large (
      omega (
        arith,
        length-append (decimal_upto fuel (n / 10)) ((b'0' + n % 10) ∷ []),
        length-decimal_upto fuel (n / 10) j (omega arith),
      ))
]

-- An integer of 64 bits is printed with few digits.
pub length-decimal : (n : ℕ) → n < 2 ^ 63 → length (decimal n) ≤ max_str_digits
unfolding decimal ten_to
length-decimal n h = omega (arith, length-decimal_upto (suc n) n 18 (omega arith))
