-- ===== src/Witnesses/Text.antt =====
-- strings.TrimSpace and strings.ToLower at concrete inputs.
use resilient_mesh_razorpayb.Base.{◌≡◌, refl, [], ◌∷◌, ◌++◌}
use resilient_mesh_razorpayb.Text.{codes, trim_space, to_lower}

trims_code : trim_space (codes " \tcard_lost \n") ≡ codes "card_lost"
unfolding trim_space
trims_code = refl

trims_wide_spaces :
    trim_space (0xe2 ∷ 0x80 ∷ 0x83 ∷ b'x' ∷ 0xc2 ∷ 0x85 ∷ 0xc2 ∷ 0xa0 ∷ []) ≡ b'x' ∷ []
unfolding trim_space
trims_wide_spaces = refl

lowers_kelvin_sign :
    to_lower (codes "NetBan" ++ 0xe2 ∷ 0x84 ∷ 0xaa ∷ codes "ING") ≡ codes "netbanking"
unfolding to_lower
lowers_kelvin_sign = refl
