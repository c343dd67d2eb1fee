-- ===== src/Text/Runes.antt =====
-- Go's unicode/utf8 on a string: how many runes it has, whether it is valid, and its first runes. A
-- byte that starts no valid encoding is a rune of its own.
use resilient_mesh_razorpayb.Text.{Bytes}
use resilient_mesh_razorpayb.Base.{
  ℕ, zero, suc, ◌-◌, Bool, true, not, ◌&&◌, [], ◌∷◌, ltb, leb, ◌==◌, if◌then◌else◌,
}

between : ℕ → ℕ → ℕ → Bool
between lo hi b = leb lo b && leb b hi

-- The bounds on the second byte of an encoding of three or four bytes.
second_ok : ℕ → ℕ → Bool
unfolding between
second_ok first b =
    if first == 0xe0
    then between 0xa0 0xbf b
    else if first == 0xed
    then between 0x80 0x9f b
    else if first == 0xf0
    then between 0x90 0xbf b
    else if first == 0xf4
    then between 0x80 0x8f b
    else between 0x80 0xbf b

-- How many bytes the rune at the start of a text takes; 0 if they encode none.
unfoldable pub rune_size : Bytes → ℕ
unfolding second_ok
rune_size [] = 0
rune_size (a ∷ []) = if ltb a 0x80 then 1 else 0
rune_size (a ∷ b ∷ []) =
    if ltb a 0x80 then 1 else if between 0xc2 0xdf a && between 0x80 0xbf b then 2 else 0
rune_size (a ∷ b ∷ c ∷ []) =
    if ltb a 0x80
    then 1
    else if between 0xc2 0xdf a && between 0x80 0xbf b
    then 2
    else if between 0xe0 0xef a && second_ok a b && between 0x80 0xbf c
    then 3
    else 0
rune_size (a ∷ b ∷ c ∷ d ∷ s) =
    if ltb a 0x80
    then 1
    else if between 0xc2 0xdf a && between 0x80 0xbf b
    then 2
    else if between 0xe0 0xef a && second_ok a b && between 0x80 0xbf c
    then 3
    else if between 0xf0 0xf4 a && second_ok a b && between 0x80 0xbf c && between 0x80 0xbf d
    then 4
    else 0

-- The count of the runes after this many bytes.
runes_after : ℕ → Bytes → ℕ
runes_after n [] = 0
runes_after zero (a ∷ s) = suc (runes_after (rune_size (a ∷ s) - 1) s)
runes_after (suc n) (a ∷ s) = runes_after n s

-- RuneCountInString
unfoldable pub rune_count : Bytes → ℕ
unfolding runes_after rune_size
rune_count s = runes_after 0 s

valid_after : ℕ → Bytes → Bool
valid_after n [] = true
valid_after zero (a ∷ s) =
    let rest = valid_after (rune_size (a ∷ s) - 1) s in not (rune_size (a ∷ s) == 0) && rest
valid_after (suc n) (a ∷ s) = valid_after n s

-- ValidString
unfoldable pub valid_string : Bytes → Bool
unfolding valid_after rune_size
valid_string s = valid_after 0 s
