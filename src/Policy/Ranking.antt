-- ===== src/Policy/Ranking.antt =====
-- internal/policy/policy.go: the order in which ChooseRail ranks the rails.
use native.Mathlib.Nat.{mul-le-mul, mul_right_comm, le_of_mul-le-mul_right}
use resilient_mesh_razorpayb.Base.{ℕ, ◌+◌, ◌*◌, ◌≤◌, ◌<◌, List, [], ◌∷◌, arith, if◌then◌else◌, All}
use resilient_mesh_razorpayb.Policy.Rails.{RailScore, better, first_of}

-- The estimate (s + 1) / (n + 2) of one rail is at least that of another.
abbrev pub AtLeast : RailScore → RailScore → Type 0
AtLeast a b = (b.successes + 1) * (a.attempts + 2) ≤ (a.successes + 1) * (b.attempts + 2)

cross_trans : (x y u v w z : ℕ) → 0 < v → u * y ≤ x * v → w * v ≤ u * z → w * y ≤ x * z
cross_trans x y u v w z positive h k =
    let left : w * v * y ≤ u * z * y = mul-le-mul k (omega arith) in
    let right : u * y * z ≤ x * v * z = mul-le-mul h (omega arith) in
    let scaled : w * y * v ≤ x * z * v =
      omega
        (arith, left, right, mul_right_comm w y v, mul_right_comm u z y, mul_right_comm x v z) in
    le_of_mul-le-mul_right scaled positive

trans : (a b c : RailScore) → AtLeast a b → AtLeast b c → AtLeast a c
trans a b c h k =
    cross_trans (a.successes + 1) (a.attempts + 2) (b.successes + 1) (b.attempts + 2)
      (c.successes + 1) (c.attempts + 2) (omega arith) h k

-- Of two rails, the one that is kept.
kept : (a b : RailScore) → let w = if better a b then a else b in AtLeast w a × AtLeast w b
unfolding better
kept a b = ground arith

-- The rail that is ranked first has an estimate of success that no other one exceeds.
pub first_of-AtLeast :
    (best : RailScore) (cs : List RailScore)
    → AtLeast (first_of best cs) best × All (AtLeast (first_of best cs)) cs
unfolding first_of
first_of-AtLeast best [] = (omega arith, tt)
first_of-AtLeast best (c ∷ cs) =
    let w = if better c best then c else best in
    let rest = first_of-AtLeast w cs in
    let top = kept c best in
    (trans (first_of w cs) w best rest.0 top.1, (trans (first_of w cs) w c rest.0 top.0, rest.1))
