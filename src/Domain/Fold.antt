-- ===== src/Domain/Fold.antt =====
-- internal/domain/models.go, foldLower and foldUpper: case folding of ASCII letters, byte by byte.
use resilient_mesh_razorpayb.Base.{
  ℕ, ◌+◌, ◌-◌, ◌≡◌, refl, ◌&&◌, [], ◌∷◌, arith, leb, if◌then◌else◌, any,
}
use resilient_mesh_razorpayb.Text.{Bytes, trim_space, non_ascii}

abbrev ascii_case_delta : ℕ
ascii_case_delta = 32

abbrev lower_byte : ℕ → ℕ
lower_byte c = if leb b'A' c && leb c b'Z' then c + ascii_case_delta else c

abbrev upper_byte : ℕ → ℕ
upper_byte c = if leb b'a' c && leb c b'z' then c - ascii_case_delta else c

unfoldable pub fold_lower : Bytes → Bytes
fold_lower [] = []
fold_lower (c ∷ s) = lower_byte c ∷ fold_lower s

unfoldable pub fold_upper : Bytes → Bytes
fold_upper [] = []
fold_upper (c ∷ s) = upper_byte c ∷ fold_upper s

-- models.go, normaliseCode.
unfoldable pub normalise_code : Bytes → Bytes
unfolding fold_lower trim_space
normalise_code code = fold_lower (trim_space code)

pub fold_lower-non_ascii : (s : Bytes) → any non_ascii (fold_lower s) ≡ any non_ascii s
unfolding fold_lower
fold_lower-non_ascii [] = refl
fold_lower-non_ascii (c ∷ s) = ground (arith, fold_lower-non_ascii s)

pub fold_upper-non_ascii : (s : Bytes) → any non_ascii (fold_upper s) ≡ any non_ascii s
unfolding fold_upper
fold_upper-non_ascii [] = refl
fold_upper-non_ascii (c ∷ s) = ground (arith, fold_upper-non_ascii s)

pub fold_lower_idem : (s : Bytes) → fold_lower (fold_lower s) ≡ fold_lower s
unfolding fold_lower
fold_lower_idem [] = refl
fold_lower_idem (c ∷ s) = ground (arith, fold_lower_idem s)
