-- ===== src/Modelcheck/Keys.antt =====
-- internal/modelcheck/model.go: StateFromKey undoes Key.
use resilient_mesh_razorpayb.Base.{
  refl, ℕ, ◌+◌, ◌*◌, ◌/◌, ◌%◌, ◌^◌, ◌<◌, ◌≡◌, refl, ◌↔◌, Bool, true, false, arith, ◌==◌,
}
use resilient_mesh_razorpayb.Modelcheck.Space.{
  State, key, state_from_key, valid, shift_in, bool_bit,
}

bit_back : (b : Bool) → (bool_bit b == 1) ≡ b
bit_back true = refl
bit_back false = refl

bit_mod : (b : Bool) → bool_bit b % 2 ≡ bool_bit b
bit_mod true = refl
bit_mod false = refl

bit_lt : (b : Bool) → bool_bit b < 2
bit_lt true = omega arith
bit_lt false = omega arith

shift_2 :
    (k v : ℕ)
    → v < 2
    → k < 2 ^ 28
    → (shift_in k 2 v / 2 ≡ k) × (shift_in k 2 v % 2 ≡ v) × (shift_in k 2 v < 2 * k + 2)
unfolding shift_in
shift_2 k v h b = omega arith

shift_4 :
    (k v : ℕ)
    → v < 4
    → k < 2 ^ 28
    → (shift_in k 4 v / 4 ≡ k) × (shift_in k 4 v % 4 ≡ v) × (shift_in k 4 v < 4 * k + 4)
unfolding shift_in
shift_4 k v h b = omega arith

shift_8 :
    (k v : ℕ)
    → v < 8
    → k < 2 ^ 28
    → (shift_in k 8 v / 8 ≡ k) × (shift_in k 8 v % 8 ≡ v) × (shift_in k 8 v < 8 * k + 8)
unfolding shift_in
shift_8 k v h b = omega arith

shift_16 :
    (k v : ℕ)
    → v < 16
    → k < 2 ^ 28
    → (shift_in k 16 v / 16 ≡ k) × (shift_in k 16 v % 16 ≡ v) × (shift_in k 16 v < 16 * k + 16)
unfolding shift_in
shift_16 k v h b = omega arith

-- The fields of a state of the space fit the widths of the key.
abbrev pub IsIndexed : State → Type 0
IsIndexed s =
    (s.category < 4)
    × (s.amount < 6)
    × (s.attempts < 5)
    × (s.hours < 10)
    × (s.breaker < 3)
    × (s.proposal < 7)
    × (s.delay < 4)

pub valid-IsIndexed : (s : State) → (valid s ≡ true) ↔ IsIndexed s
unfolding valid
valid-IsIndexed s = ground arith

-- No two states of the space share a key: for a state whose indices address elements of their tables,
-- StateFromKey gives back the state that Key packed.
pub state_from_key-key : (s : State) → valid s ≡ true → state_from_key (key s) ≡ s
unfolding key state_from_key
state_from_key-key s v =
    let (c, a, n, h, b, p, d) = (valid-IsIndexed s).0 v in
    let r = s.recurring in
    let k1 = shift_in (bool_bit r) 4 s.category in
    let (q1, m1, b1) = shift_4 (bool_bit r) s.category c (omega (arith, bit_lt r)) in
    let k2 = shift_in k1 8 s.amount in
    let (q2, m2, b2) = shift_8 k1 s.amount (omega arith) (omega (arith, bit_lt r)) in
    let k3 = shift_in k2 8 s.attempts in
    let (q3, m3, b3) = shift_8 k2 s.attempts (omega arith) (omega (arith, bit_lt r)) in
    let k4 = shift_in k3 16 s.hours in
    let (q4, m4, b4) = shift_16 k3 s.hours (omega arith) (omega (arith, bit_lt r)) in
    let k5 = shift_in k4 2 (bool_bit s.notified) in
    let (q5, m5, b5) = shift_2 k4 _ (bit_lt s.notified) (omega (arith, bit_lt r)) in
    let k6 = shift_in k5 2 (bool_bit s.halted) in
    let (q6, m6, b6) = shift_2 k5 _ (bit_lt s.halted) (omega (arith, bit_lt r)) in
    let k7 = shift_in k6 4 s.breaker in
    let (q7, m7, b7) = shift_4 k6 s.breaker (omega arith) (omega (arith, bit_lt r)) in
    let k8 = shift_in k7 2 (bool_bit s.session_live) in
    let (q8, m8, b8) = shift_2 k7 _ (bit_lt s.session_live) (omega (arith, bit_lt r)) in
    let k9 = shift_in k8 8 s.proposal in
    let (q9, m9, b9) = shift_8 k8 s.proposal (omega arith) (omega (arith, bit_lt r)) in
    let (q10, m10, b10) = shift_4 k9 s.delay d (omega (arith, bit_lt r)) in
    rw (q10, q9, q8, q7, q6, q5, q4, q3, q2, q1, m10, m9, m8, m7, m6, m5, m4, m3, m2, m1)
      (rw
        (
          bit_mod s.recurring,
          bit_back s.recurring,
          bit_back s.notified,
          bit_back s.halted,
          bit_back s.session_live,
        )
        refl)
