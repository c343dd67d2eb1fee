-- ===== src/Attest/Hex.antt =====
-- encoding/hex, as internal/attest uses it: bytes as lower-case hexadecimal text, and back.
use resilient_mesh_razorpayb.Base.{
  ℕ, ◌+◌, ◌-◌, ◌*◌, ◌/◌, ◌%◌, ◌<◌, ◌≡◌, refl, ap, ◌&&◌, Option, none, some, [], ◌∷◌, arith, ltb,
  leb, if◌then◌else◌, All,
}
use resilient_mesh_razorpayb.Text.{Bytes}

hex_digit : ℕ → ℕ
hex_digit n = if ltb n 10 then b'0' + n else b'a' - 10 + n

unfoldable pub encode_to_string : Bytes → Bytes
unfolding hex_digit
encode_to_string [] = []
encode_to_string (b ∷ s) = hex_digit (b / 16) ∷ hex_digit (b % 16) ∷ encode_to_string s

from_hex_char : ℕ → Option ℕ
from_hex_char c =
    if leb b'0' c && leb c b'9'
    then some (c - b'0')
    else if leb b'a' c && leb c b'f'
    then some (c - b'a' + 10)
    else if leb b'A' c && leb c b'F'
    then some (c - b'A' + 10)
    else none

push_byte : Option ℕ → Option ℕ → Option Bytes → Option Bytes
push_byte (some h) (some l) (some s) = some ((h * 16 + l) ∷ s)
push_byte _ _ _ = none

-- hex.DecodeString, `none` for an error.
unfoldable pub decode_string : Bytes → Option Bytes
unfolding from_hex_char push_byte
decode_string [] = some []
decode_string (a ∷ []) = none
decode_string (a ∷ b ∷ s) = push_byte (from_hex_char a) (from_hex_char b) (decode_string s)

abbrev pub IsByte : ℕ → Type 0
IsByte b = b < 256

from_hex_char-hex_digit : (n : ℕ) → n < 16 → from_hex_char (hex_digit n) ≡ some n
unfolding from_hex_char hex_digit
from_hex_char-hex_digit n h = ground arith

-- What is encoded is decoded.
pub decode_string-encode : (s : Bytes) → All IsByte s → decode_string (encode_to_string s) ≡ some s
unfolding decode_string encode_to_string
decode_string-encode [] h = refl
decode_string-encode (b ∷ s) h =
    rw
      (
        from_hex_char-hex_digit (b / 16) (omega arith),
        from_hex_char-hex_digit (b % 16) (omega arith),
        decode_string-encode s h.1,
      )
      (ap (λ (n : ℕ). some (n ∷ s)) (omega arith))
