-- ===== src/Gatekeeper/Clean.antt =====
-- internal/gatekeeper/gatekeeper.go: what sanitised text can hold.
use resilient_mesh_razorpayb.Base.{
  ℕ, zero, suc, ◌+◌, ◌≡◌, ◌≤◌, refl, Bool, true, false, [], ◌∷◌, ◌++◌, arith, All, length, take,
  leb, ◌==◌, if◌then◌else◌, length-append,
}
use resilient_mesh_razorpayb.Text.{Bytes}
use resilient_mesh_razorpayb.Gatekeeper.Sanitize.{
  cap_runes, token_char, keep_if, sanitize_token, ellipsis,
}

abbrev IsToken : ℕ → Type 0
IsToken c = token_char c ≡ true

keep_if-All : (s : Bytes) → All IsToken (keep_if token_char s)
unfolding keep_if
keep_if-All [] = tt
keep_if-All (c ∷ s) = ground (arith, keep_if-All s)

append-All : (s t : Bytes) → All IsToken s → All IsToken t → All IsToken (s ++ t)
append-All [] t p q = q
append-All (c ∷ s) t p q = (p.0, append-All s t p.1 q)

take-All : (n : ℕ) (s : Bytes) → All IsToken s → All IsToken (take n s)
take-All zero s p = tt
take-All (suc n) [] p = tt
take-All (suc n) (c ∷ s) p = (p.0, take-All n s p.1)

length-take : (n : ℕ) (s : Bytes) → length (take n s) ≤ n
length-take zero s = omega arith
length-take (suc n) [] = omega arith
length-take (suc n) (c ∷ s) = omega (arith, length-take n s)

dots-All : All IsToken ellipsis
unfolding token_char
dots-All = (refl, (refl, (refl, tt)))

either : (P : Bytes → Type 0) (b : Bool) (x y : Bytes) → P x → P y → P (if b then x else y)
either P true x y p q = p
either P false x y p q = q

cap_runes-All : (s : Bytes) (n : ℕ) → All IsToken s → All IsToken (cap_runes s n)
unfolding cap_runes
cap_runes-All s n p = either (All IsToken) (n == 0) _ _ tt (
    either (All IsToken) (leb (length s) n) _ _ p
      (append-All (take n s) ellipsis (take-All n s p) dots-All))

length-cap_runes : (s : Bytes) (n : ℕ) → length (cap_runes s n) ≤ n + 3
unfolding cap_runes
length-cap_runes s n = ground (arith, length-append (take n s) ellipsis, length-take n s)

-- A sanitised identifier, whatever text it comes from, is made of ASCII letters, digits and _ - : . @ /
-- alone, and has at most three characters more than the limit.
pub sanitize_token-All :
    (s : Bytes) (n : ℕ)
    → All (λ (c : ℕ). token_char c ≡ true) (sanitize_token s n)
      × (length (sanitize_token s n) ≤ n + 3)
unfolding sanitize_token
sanitize_token-All s n =
    (cap_runes-All _ n (keep_if-All s), length-cap_runes (keep_if token_char s) n)
