-- ===== src/Domain/Refold.antt =====
-- internal/domain/models.go: a text that is folded twice, the Unicode way and then byte by byte, is
-- still found in the taxonomy.
use resilient_mesh_razorpayb.Base.{◌≡◌, refl, sym, ◌∙◌, true, false, [], ◌∷◌, arith, any}
use resilient_mesh_razorpayb.Text.{Bytes, starts_with, trim_space, to_lower, lower_from, non_ascii}
use resilient_mesh_razorpayb.Domain.Fold.{fold_lower, normalise_code, fold_lower-non_ascii}
use resilient_mesh_razorpayb.Domain.Taxonomy.{
  terminal_decline_codes, has_code, has_code-All, is_terminal_decline,
}

lower_from_ascii : (s : Bytes) → any non_ascii s ≡ false → lower_from 0 s ≡ fold_lower s
unfolding lower_from fold_lower starts_with
lower_from_ascii [] h = refl
lower_from_ascii (c ∷ s) h = ground (arith, lower_from_ascii s)

-- Of a text that folds to ASCII, lower case the Unicode way is the fold.
pub to_lower-fold_lower :
    (s : Bytes) → any non_ascii (fold_lower s) ≡ false → to_lower s ≡ fold_lower s
unfolding to_lower
to_lower-fold_lower s h = lower_from_ascii s (sym (fold_lower-non_ascii s) ∙ h)

abbrev Steady : Bytes → Type 0
Steady c =
    (any non_ascii c ≡ false) × (has_code terminal_decline_codes (fold_lower (trim_space c)) ≡ true)

-- A decline that the taxonomy calls terminal is still terminal after a gate has trimmed it and put it
-- in lower case.
pub is_terminal_decline-to_lower :
    (code : Bytes)
    → is_terminal_decline code ≡ true
    → is_terminal_decline (to_lower (trim_space code)) ≡ true
unfolding is_terminal_decline normalise_code
is_terminal_decline-to_lower code h =
    let (ascii, found) =
      has_code-All Steady terminal_decline_codes (fold_lower (trim_space code)) (ground arith) h in
    rw (to_lower-fold_lower (trim_space code) ascii) found
