-- ===== src/Text.antt =====
-- Go strings as lists of bytes, with what the program uses of Go's `strings` and `utf8` packages.
pub mod Runes
use Prim.Native.Char.{code}
use Prim.Native.String.{String}
use resilient_mesh_razorpayb.Base.{
  ℕ, zero, suc, ◌+◌, Bool, true, false, ◌&&◌, List, [], ◌∷◌, reverse, leb, ◌==◌, if◌then◌else◌,
}

abbrev pub Bytes : Type 0
Bytes = List ℕ

-- The bytes of an ASCII literal.
abbrev pub codes : String → Bytes
codes String.[] = []
codes (String.◌∷◌ c s) = code c ∷ codes s

abbrev pub is_empty : Bytes → Bool
is_empty [] = true
is_empty (c ∷ s) = false

-- Does the second text begin with the first?
unfoldable pub starts_with : Bytes → Bytes → Bool
starts_with [] s = true
starts_with (c ∷ p) [] = false
starts_with (c ∷ p) (d ∷ s) = c == d && starts_with p s

-- The first of the given texts that the second begins with, as its length; 0 if there is none.
leading : List Bytes → Bytes → ℕ
unfolding starts_with
leading [] s = 0
leading (p ∷ ps) s = if starts_with p s then size p else leading ps s
  where
    size : Bytes → ℕ
    size [] = 0
    size (c ∷ r) = suc (size r)

-- The encodings of `unicode.IsSpace`: ASCII, then U+0085, U+00A0, U+1680, U+2000 to U+200A, U+2028,
-- U+2029, U+202F, U+205F and U+3000.
abbrev spaces : List Bytes
spaces =
    (9 ∷ [])
    ∷ (10 ∷ [])
    ∷ (11 ∷ [])
    ∷ (12 ∷ [])
    ∷ (13 ∷ [])
    ∷ (32 ∷ [])
    ∷ (0xc2 ∷ 0x85 ∷ [])
    ∷ (0xc2 ∷ 0xa0 ∷ [])
    ∷ (0xe1 ∷ 0x9a ∷ 0x80 ∷ [])
    ∷ (0xe2 ∷ 0x80 ∷ 0x80 ∷ [])
    ∷ (0xe2 ∷ 0x80 ∷ 0x81 ∷ [])
    ∷ (0xe2 ∷ 0x80 ∷ 0x82 ∷ [])
    ∷ (0xe2 ∷ 0x80 ∷ 0x83 ∷ [])
    ∷ (0xe2 ∷ 0x80 ∷ 0x84 ∷ [])
    ∷ (0xe2 ∷ 0x80 ∷ 0x85 ∷ [])
    ∷ (0xe2 ∷ 0x80 ∷ 0x86 ∷ [])
    ∷ (0xe2 ∷ 0x80 ∷ 0x87 ∷ [])
    ∷ (0xe2 ∷ 0x80 ∷ 0x88 ∷ [])
    ∷ (0xe2 ∷ 0x80 ∷ 0x89 ∷ [])
    ∷ (0xe2 ∷ 0x80 ∷ 0x8a ∷ [])
    ∷ (0xe2 ∷ 0x80 ∷ 0xa8 ∷ [])
    ∷ (0xe2 ∷ 0x80 ∷ 0xa9 ∷ [])
    ∷ (0xe2 ∷ 0x80 ∷ 0xaf ∷ [])
    ∷ (0xe2 ∷ 0x81 ∷ 0x9f ∷ [])
    ∷ (0xe3 ∷ 0x80 ∷ 0x80 ∷ [])
    ∷ []

reversed : List Bytes → List Bytes
reversed [] = []
reversed (p ∷ ps) = reverse p ∷ reversed ps

-- Drops leading spaces; the number is how many bytes of a space are still to be skipped.
drop_spaces : List Bytes → ℕ → Bytes → Bytes
unfolding leading
drop_spaces ps k [] = []
drop_spaces ps (suc k) (c ∷ s) = drop_spaces ps k s
drop_spaces ps zero (c ∷ s) = elim (leading ps (c ∷ s)) [
  | zero ↦ c ∷ s
  | suc k ↦ drop_spaces ps k s
]

-- strings.TrimSpace. A space that ends a text is found from its last byte.
unfoldable pub trim_space : Bytes → Bytes
unfolding drop_spaces reversed
trim_space s = reverse (drop_spaces (reversed spaces) 0 (reverse (drop_spaces spaces 0 s)))

-- strings.ToLower, for comparison with ASCII words: of the characters outside ASCII, only U+0130
-- and U+212A have a lower case in ASCII; the others are kept as they are.
abbrev lower_head : ℕ → Bytes → ℕ
lower_head c s =
    if leb b'A' c && leb c b'Z'
    then c + 32
    else if starts_with (0xc4 ∷ 0xb0 ∷ []) (c ∷ s)
    then b'i'
    else if starts_with (0xe2 ∷ 0x84 ∷ 0xaa ∷ []) (c ∷ s)
    then b'k'
    else c

abbrev lower_skip : ℕ → Bytes → ℕ
lower_skip c s =
    if starts_with (0xc4 ∷ 0xb0 ∷ []) (c ∷ s)
    then 1
    else if starts_with (0xe2 ∷ 0x84 ∷ 0xaa ∷ []) (c ∷ s)
    then 2
    else 0

unfoldable pub lower_from : ℕ → Bytes → Bytes
unfolding starts_with
lower_from k [] = []
lower_from (suc k) (c ∷ s) = lower_from k s
lower_from zero (c ∷ s) = lower_head c s ∷ lower_from (lower_skip c s) s

unfoldable pub to_lower : Bytes → Bytes
unfolding lower_from
to_lower s = lower_from 0 s

-- A byte of an encoding of a character outside ASCII.
abbrev pub non_ascii : ℕ → Bool
non_ascii c = leb 128 c
