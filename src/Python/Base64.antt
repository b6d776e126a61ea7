-- ===== src/Python/Base64.antt =====
-- `base64.b64encode`, and `base64.b64decode` with `validate=True`, which takes padding in the last
-- group alone and raises on anything outside the alphabet.
use fxa_lite.Prelude.{
  ℕ, ◌+◌, ◌-◌, ◌*◌, ◌/◌, ◌%◌, ◌<◌, ◌≡◌, ◌≢◌, refl, Bool, true, false, ◌&&◌, Option, none, some,
  List, [], ◌∷◌, arith, ltb, leb, ◌==◌, if◌then◌else◌, All, length,
}

abbrev padding : ℕ
padding = b'='

unfoldable pub symbol : ℕ → ℕ
symbol v =
    if ltb v 26
    then b'A' + v
    else if ltb v 52
    then b'a' + (v - 26)
    else if ltb v 62
    then b'0' + (v - 52)
    else if v == 62
    then b'+'
    else b'/'

unfoldable pub symbol_value : ℕ → Option ℕ
symbol_value c =
    if leb b'A' c && leb c b'Z'
    then some (c - b'A')
    else if leb b'a' c && leb c b'z'
    then some (c - b'a' + 26)
    else if leb b'0' c && leb c b'9'
    then some (c - b'0' + 52)
    else if c == b'+'
    then some 62
    else if c == b'/'
    then some 63
    else none

unfoldable pub b64encode : List ℕ → List ℕ
b64encode [] = []
b64encode (a ∷ []) = symbol (a / 4) ∷ symbol (a % 4 * 16) ∷ padding ∷ padding ∷ []
b64encode (a ∷ b ∷ []) =
    symbol (a / 4) ∷ symbol (a % 4 * 16 + b / 16) ∷ symbol (b % 16 * 4) ∷ padding ∷ []
b64encode (a ∷ b ∷ c ∷ rest) =
    symbol (a / 4)
    ∷ symbol (a % 4 * 16 + b / 16)
    ∷ symbol (b % 16 * 4 + c / 64)
    ∷ symbol (c % 64)
    ∷ b64encode rest

infixl 5 ◌>>=◌
abbrev ◌>>=◌ : {A B : Type 0} → Option A → (A → Option B) → Option B
none >>= f = none
some a >>= f = f a

is_nil : List ℕ → Bool
is_nil [] = true
is_nil (c ∷ rest) = false

one_byte : ℕ → ℕ → Option (List ℕ)
one_byte w x = do a ← symbol_value w; b ← symbol_value x; some ((a * 4 + b / 16) ∷ [])

two_bytes : ℕ → ℕ → ℕ → Option (List ℕ)
two_bytes w x y = do
  a ← symbol_value w
  b ← symbol_value x
  c ← symbol_value y
  some ((a * 4 + b / 16) ∷ (b % 16 * 16 + c / 4) ∷ [])

three_bytes : ℕ → ℕ → ℕ → ℕ → Option (List ℕ) → Option (List ℕ)
three_bytes w x y z more = do
  a ← symbol_value w
  b ← symbol_value x
  c ← symbol_value y
  d ← symbol_value z
  rest ← more
  some ((a * 4 + b / 16) ∷ (b % 16 * 16 + c / 4) ∷ (c % 4 * 64 + d) ∷ rest)

unfoldable pub b64decode : List ℕ → Option (List ℕ)
unfolding one_byte two_bytes three_bytes is_nil
b64decode [] = some []
b64decode (w ∷ x ∷ y ∷ z ∷ text) =
    let more = three_bytes w x y z (b64decode text) in
    if is_nil text && z == padding
    then (if y == padding then one_byte w x else two_bytes w x y)
    else more
b64decode _ = none

symbol_value-symbol : (v : ℕ) → v < 64 → symbol_value (symbol v) ≡ some v
unfolding symbol symbol_value
symbol_value-symbol v h = ground arith

symbol-ne-padding : (v : ℕ) → (symbol v == padding) ≡ false
unfolding symbol
symbol-ne-padding v = ground arith

abbrev pub IsByte : ℕ → Type 0
IsByte c = c < 256

symbol_value-second :
    (a b : ℕ) → b < 256 → symbol_value (symbol (a % 4 * 16 + b / 16)) ≡ some (a % 4 * 16 + b / 16)
symbol_value-second a b h = symbol_value-symbol _ (omega arith)

symbol_value-third :
    (b c : ℕ) → c < 256 → symbol_value (symbol (b % 16 * 4 + c / 64)) ≡ some (b % 16 * 4 + c / 64)
symbol_value-third b c h = symbol_value-symbol _ (omega arith)

two_bytes_lem :
    (a b : ℕ)
    → a < 256
    → b < 256
    → two_bytes (symbol (a / 4)) (symbol (a % 4 * 16 + b / 16)) (symbol (b % 16 * 4))
      ≡ some (a ∷ b ∷ [])
unfolding two_bytes
two_bytes_lem a b ha hb = ground (
  arith,
  symbol_value-symbol (a / 4) (omega arith),
  symbol_value-second a b hb,
  symbol_value-symbol (b % 16 * 4) (omega arith),
)

three_bytes_lem :
    (a b c : ℕ) (rest : List ℕ)
    → a < 256
    → b < 256
    → c < 256
    → three_bytes
        (symbol (a / 4))
        (symbol (a % 4 * 16 + b / 16))
        (symbol (b % 16 * 4 + c / 64))
        (symbol (c % 64))
        (some rest)
      ≡ some (a ∷ b ∷ c ∷ rest)
unfolding three_bytes
three_bytes_lem a b c rest ha hb hc = ground (
  arith,
  symbol_value-symbol (a / 4) (omega arith),
  symbol_value-second a b hb,
  symbol_value-third b c hc,
  symbol_value-symbol (c % 64) (omega arith),
)

-- Decoding gives back the bytes that were encoded.
pub b64decode-b64encode :
    (bytes : List ℕ) → All IsByte bytes → b64decode (b64encode bytes) ≡ some bytes
unfolding b64decode b64encode
b64decode-b64encode [] h = refl
b64decode-b64encode (a ∷ []) h = ground (
  arith,
  symbol_value-symbol (a / 4) (omega arith),
  symbol_value-symbol (a % 4 * 16) (omega arith),
)
b64decode-b64encode (a ∷ b ∷ []) h =
    ground (arith, two_bytes_lem a b h.0 h.1.0, symbol-ne-padding (b % 16 * 4))
b64decode-b64encode (a ∷ b ∷ c ∷ rest) h =
    rw (b64decode-b64encode rest h.1.1.1, symbol-ne-padding (c % 64))
      (ground (arith, three_bytes_lem a b c rest h.0 h.1.0 h.1.1.0))

-- A text whose length is no multiple of four does not decode.
pub b64decode-none : (text : List ℕ) → length text % 4 ≢ 0 → b64decode text ≡ none
unfolding b64decode three_bytes is_nil
b64decode-none [] h = absurd (h (omega arith))
b64decode-none (w ∷ []) h = refl
b64decode-none (w ∷ x ∷ []) h = refl
b64decode-none (w ∷ x ∷ y ∷ []) h = refl
b64decode-none (w ∷ x ∷ y ∷ z ∷ []) h = absurd (h (omega arith))
b64decode-none (w ∷ x ∷ y ∷ z ∷ v ∷ text) h =
    ground (arith, b64decode-none (v ∷ text) (λ e. h (omega arith)))
