-- ===== src/Gatekeeper/Sanitize.antt =====
-- internal/gatekeeper/gatekeeper.go: sanitizeToken, sanitizeText, capRunes, capBytes, orDefault and
-- normaliseMode, which make untrusted text safe to store and to show.
use resilient_mesh_razorpayb.Base.{
  ℕ, zero, suc, Bool, not, ◌&&◌, ◌||◌, List, [], ◌∷◌, ◌++◌, reverse, leb, ◌==◌, if◌then◌else◌,
  length, take, list_eq,
}
use Prim.Native.Nat.{bit_and}
use resilient_mesh_razorpayb.Text.{Bytes, codes, is_empty}

abbrev pub ellipsis : Bytes
ellipsis = codes "..."

-- capRunes, over characters.
unfoldable pub cap_runes : List ℕ → ℕ → List ℕ
cap_runes s max_runes =
    if max_runes == 0
    then []
    else if leb (length s) max_runes
    then s
    else take max_runes s ++ ellipsis

-- The characters that identifiers are made of.
unfoldable pub token_char : ℕ → Bool
token_char r =
    leb b'a' r && leb r b'z'
    || leb b'A' r && leb r b'Z'
    || leb b'0' r && leb r b'9'
    || r == b'_'
    || r == b'-'
    || r == b':'
    || r == b'.'
    || r == b'@'
    || r == b'/'

unfoldable pub keep_if : (ℕ → Bool) → List ℕ → List ℕ
keep_if p [] = []
keep_if p (c ∷ s) = let rest = keep_if p s in if p c then c ∷ rest else rest

-- sanitizeToken. It keeps ASCII characters only, so it works byte by byte on any text, and what
-- ToValidUTF8 would drop is dropped here as well.
unfoldable pub sanitize_token : Bytes → ℕ → Bytes
unfolding cap_runes keep_if token_char
sanitize_token s max_runes = cap_runes (keep_if token_char s) max_runes

-- unicode.IsControl: the category Cc.
abbrev pub is_control : ℕ → Bool
is_control r = leb r 31 || leb 127 r && leb r 159

abbrev pub is_fence : ℕ → Bool
is_fence r = r == b'{' || r == b'}' || r == b'[' || r == b']' || r == b'<' || r == b'>'

-- unicode.IsSpace, on characters.
is_space : ℕ → Bool
is_space r =
    leb 9 r && leb r 13
    || r == 32
    || r == 0x85
    || r == 0xa0
    || r == 0x1680
    || leb 0x2000 r && leb r 0x200a
    || r == 0x2028
    || r == 0x2029
    || r == 0x202f
    || r == 0x205f
    || r == 0x3000

drop_while : (ℕ → Bool) → List ℕ → List ℕ
drop_while p [] = []
drop_while p (c ∷ s) = let rest = drop_while p s in if p c then rest else c ∷ s

trim_runes : List ℕ → List ℕ
unfolding drop_while is_space
trim_runes s = reverse (drop_while is_space (reverse (drop_while is_space s)))

-- The loop of sanitizeText: fences and control characters vanish, line breaks and tabs are blanks.
clean : List ℕ → List ℕ
clean [] = []
clean (r ∷ s) =
    let rest = clean s in
    if is_fence r
    then rest
    else if r == 10 || r == 13 || r == 9
    then 32 ∷ rest
    else if is_control r
    then rest
    else r ∷ rest

-- sanitizeText, on the characters that ToValidUTF8 leaves.
unfoldable pub sanitize_text : List ℕ → ℕ → List ℕ
unfolding cap_runes clean trim_runes
sanitize_text s max_runes = cap_runes (trim_runes (clean s)) max_runes

-- utf8Start
abbrev utf8_start : ℕ → Bool
utf8_start b = not (bit_and b 0xc0 == 0x80)

byte_at : Bytes → ℕ → ℕ
byte_at [] i = 0
byte_at (c ∷ s) zero = c
byte_at (c ∷ s) (suc i) = byte_at s i

-- The loop of capBytes, down from `cut` to the start of a character.
cut_at : Bytes → ℕ → ℕ
unfolding byte_at
cut_at s zero = 0
cut_at s (suc cut) =
    let less = cut_at s cut in if utf8_start (byte_at s (suc cut)) then suc cut else less

abbrev truncated_mark : Bytes
truncated_mark = 10 ∷ codes "[trace truncated]" ++ 10 ∷ []

-- capBytes
cap_bytes : Bytes → ℕ → Bytes
unfolding cut_at
cap_bytes s max_bytes =
    if leb (length s) max_bytes then s else take (cut_at s max_bytes) s ++ truncated_mark

-- orDefault
or_default : Bytes → Bytes → Bytes
or_default s def = if is_empty s then def else s

-- normaliseMode
unfoldable pub normalise_mode : Bytes → Bytes
unfolding sanitize_token
normalise_mode m =
    if list_eq m (codes "LIVE")
      || list_eq m (codes "REPLAY")
      || list_eq m (codes "HEURISTIC")
      || list_eq m (codes "SKIPPED")
    then m
    else sanitize_token m 24
