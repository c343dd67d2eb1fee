-- ===== src/Policy/Value.antt =====
-- internal/policy/policy.go: ExpectedValue, with the wrap-around of its int64 arithmetic. The product
-- of a probability by 10,000, a rounded one that is cut to an int64, is a parameter.
use resilient_mesh_razorpayb.Base.{
  ℕ, suc, ◌-◌, ◌*◌, ◌/◌, ◌%◌, ◌^◌, ◌≤◌, ◌<◌, ◌≡◌, sym, ap, ◌∙◌, subst, Bool, true, ◌||◌, arith,
  if◌then◌else◌, ℤ, pos, negsuc, pos_part, neg_part, ◌-ℤ◌, ◌≤ℤ◌, int_laws, Float64, is_nan,
  leb_float, float_zero, float_one,
}
use resilient_mesh_razorpayb.Domain.Times.{wrap_int64}
use resilient_mesh_razorpayb.Audit.Encoding.{IsInt64}
use resilient_mesh_razorpayb.Policy.Telemetry.{clamp64}
use native.Mathlib.Nat.{mul-le-mul}

pub record CostModel : Type 0 where
  pub gateway_fee_per_attempt_paisa : ℤ
  pub comms_cost_per_message_paisa : ℤ
  pub compliance_penalty_paisa : ℤ
  pub session_friction_paisa : ℤ

abbrev max_amount_paisa : ℤ
max_amount_paisa = pos 100_000_000_000_000

abbrev max_cost_paisa : ℤ
max_cost_paisa = pos 1_000_000_000_000

abbrev max_ev_attempts : ℤ
max_ev_attempts = pos 1000

-- probToBasisPoints, for the conversion int64(p*10000+0.5).
unfoldable pub prob_to_basis_points : (Float64 → ℤ) → Float64 → ℤ
prob_to_basis_points scaled p =
    if is_nan p || leb_float p float_zero
    then pos 0
    else if leb_float float_one p
    then pos 10_000
    else clamp64 (scaled p) (pos 0) (pos 10_000)

-- Division of an int64 by 10,000, which truncates toward zero.
unfoldable pub basis_quotient : ℤ → ℤ
basis_quotient (pos n) = pos (n / 10_000)
basis_quotient (negsuc n) = pos 0 -ℤ pos (suc n / 10_000)

-- The product of two int64 that are not negative.
abbrev product : ℤ → ℤ → ℤ
product x y = wrap_int64 (pos (pos_part x * pos_part y))

-- Engine.ExpectedValue, for a context that may be cancelled.
unfoldable pub expected_value : (Float64 → ℤ) → Bool → ℤ → Float64 → ℤ → CostModel → ℤ
unfolding prob_to_basis_points basis_quotient
expected_value scaled cancelled amount_paisa success_prob attempts costs =
    let bps = if cancelled then pos 0 else prob_to_basis_points scaled success_prob in
    let amount = clamp64 amount_paisa (pos 0) max_amount_paisa in
    let fee = clamp64 costs.gateway_fee_per_attempt_paisa (pos 0) max_cost_paisa in
    let friction = clamp64 costs.session_friction_paisa (pos 0) max_cost_paisa in
    let n = clamp64 attempts (pos 0) max_ev_attempts in
    wrap_int64 (wrap_int64 (basis_quotient (product amount bps) -ℤ product n fee) -ℤ friction)

wrap_exact : (z : ℤ) → IsInt64 z → wrap_int64 z ≡ z
unfolding wrap_int64
wrap_exact (pos n) h = let same : n % 2 ^ 64 ≡ n = omega (arith, h) in rw same (ground arith)
wrap_exact (negsuc n) h = let same : n % 2 ^ 64 ≡ n = omega (arith, h) in rw same (ground arith)

-- A value between 0 and a bound.
abbrev Within : ℤ → ℕ → Type 0
Within z m = (neg_part z ≡ 0) × (pos_part z ≤ m)

clamp64-Within : (v : ℤ) (m : ℕ) → Within (clamp64 v (pos 0) (pos m)) m
unfolding clamp64
clamp64-Within v m = ground arith

prob_to_basis_points-Within :
    (scaled : Float64 → ℤ) (p : Float64) → Within (prob_to_basis_points scaled p) 10_000
unfolding prob_to_basis_points
prob_to_basis_points-Within scaled p =
    let clamped = clamp64-Within (scaled p) 10_000 in ground arith

basis_points : (Float64 → ℤ) → Bool → Float64 → ℤ
basis_points scaled cancelled p = if cancelled then pos 0 else prob_to_basis_points scaled p

basis_points-Within :
    (scaled : Float64 → ℤ) (cancelled : Bool) (p : Float64)
    → Within (basis_points scaled cancelled p) 10_000
unfolding basis_points
basis_points-Within scaled cancelled p =
    let known = prob_to_basis_points-Within scaled p in ground arith

product_exact :
    (x y : ℤ) (m k : ℕ)
    → Within x m
    → Within y k
    → m * k < 2 ^ 63
    → (product x y ≡ pos (pos_part x * pos_part y)) × (pos_part x * pos_part y ≤ m * k)
product_exact x y m k hx hy room =
    let below : pos_part x * pos_part y ≤ m * k = mul-le-mul hx.1 hy.1 in
    (wrap_exact (pos (pos_part x * pos_part y)) (omega (arith, below, room), omega arith), below)

within-IsInt64 : (z : ℤ) → z ≤ℤ pos (2 ^ 63 - 1) → negsuc (2 ^ 63 - 1) ≤ℤ z → IsInt64 z
within-IsInt64 (pos n) h k = (omega arith, omega arith)
within-IsInt64 (negsuc n) h k = (omega arith, omega arith)

-- The difference of values that are small enough.
net_exact :
    (q n : ℕ) (friction : ℤ)
    → q ≤ 10 ^ 14
    → n ≤ 10 ^ 15
    → Within friction (10 ^ 12)
    → wrap_int64 (wrap_int64 (pos q -ℤ pos n) -ℤ friction) ≡ (pos q -ℤ pos n) -ℤ friction
net_exact q n friction hq hn hf =
    let x = pos q -ℤ pos n in
    let small = within-IsInt64 x (omega int_laws) (omega int_laws) in
    let net = within-IsInt64 (x -ℤ friction) (omega int_laws) (omega int_laws) in
    ap (λ z. wrap_int64 (z -ℤ friction)) (wrap_exact x small) ∙ wrap_exact (x -ℤ friction) net

-- The value in unbounded integers: amount * probability, less the fees and the friction.
abbrev pub exact_value : (Float64 → ℤ) → Bool → ℤ → Float64 → ℤ → CostModel → ℤ
exact_value scaled cancelled amount_paisa p attempts costs =
    let bps = if cancelled then pos 0 else prob_to_basis_points scaled p in
    let amount = clamp64 amount_paisa (pos 0) max_amount_paisa in
    let fee = clamp64 costs.gateway_fee_per_attempt_paisa (pos 0) max_cost_paisa in
    let friction = clamp64 costs.session_friction_paisa (pos 0) max_cost_paisa in
    let n = clamp64 attempts (pos 0) max_ev_attempts in
    (pos (pos_part amount * pos_part bps / 10_000) -ℤ pos (pos_part n * pos_part fee)) -ℤ friction

-- No operation of ExpectedValue wraps around, whatever the amount, the number of attempts, the costs
-- and the conversion of the probability give: the result is the one of unbounded integers.
pub expected_value_lem :
    (scaled : Float64 → ℤ) (cancelled : Bool) (amount : ℤ) (p : Float64) (attempts : ℤ)
    (costs : CostModel)
    → expected_value scaled cancelled amount p attempts costs
      ≡ exact_value scaled cancelled amount p attempts costs
unfolding expected_value basis_points
expected_value_lem scaled cancelled amount p attempts costs =
    let bps = basis_points scaled cancelled p in
    let a = clamp64 amount (pos 0) max_amount_paisa in
    let fee = clamp64 costs.gateway_fee_per_attempt_paisa (pos 0) max_cost_paisa in
    let friction = clamp64 costs.session_friction_paisa (pos 0) max_cost_paisa in
    let n = clamp64 attempts (pos 0) max_ev_attempts in
    let gross =
      product_exact a bps (10 ^ 14) 10_000 (clamp64-Within amount (10 ^ 14))
        (basis_points-Within scaled cancelled p) (omega arith) in
    let fees =
      product_exact n fee 1000 (10 ^ 12) (clamp64-Within attempts 1000)
        (clamp64-Within costs.gateway_fee_per_attempt_paisa (10 ^ 12)) (omega arith) in
    ap (λ z. wrap_int64 (wrap_int64 (basis_quotient z -ℤ product n fee) -ℤ friction)) gross.0
    ∙ ap (λ z. wrap_int64 (wrap_int64 (pos (pos_part a * pos_part bps / 10_000) -ℤ z) -ℤ friction))
        fees.0
    ∙ net_exact (pos_part a * pos_part bps / 10_000) (pos_part n * pos_part fee) friction
        (omega (arith, gross.1)) (omega (arith, fees.1))
        (clamp64-Within costs.session_friction_paisa (10 ^ 12))

share : (a b : ℕ) → b ≤ 10_000 → a * b / 10_000 ≤ a
share a b h = let below : a * b ≤ a * 10_000 = mul-le-mul (omega arith) h in omega (arith, below)

at_most :
    (q n m : ℕ) (friction : ℤ)
    → q ≤ m
    → neg_part friction ≡ 0
    → (pos q -ℤ pos n) -ℤ friction ≤ℤ pos m
at_most q n m friction h k = omega int_laws

clamp_down : (v : ℤ) (m : ℕ) → pos_part (clamp64 v (pos 0) (pos m)) ≤ pos_part v
unfolding clamp64
clamp_down v m = ground arith

-- The value is never more than the amount, and under a cancelled context it is not positive.
pub expected_value-at_most :
    (scaled : Float64 → ℤ) (cancelled : Bool) (amount : ℤ) (p : Float64) (attempts : ℤ)
    (costs : CostModel)
    → (expected_value scaled cancelled amount p attempts costs ≤ℤ pos (pos_part amount))
      × (cancelled ≡ true → expected_value scaled cancelled amount p attempts costs ≤ℤ pos 0)
unfolding basis_points
expected_value-at_most scaled cancelled amount p attempts costs =
    let bps = basis_points scaled cancelled p in
    let a = pos_part (clamp64 amount (pos 0) max_amount_paisa) in
    let fee = clamp64 costs.gateway_fee_per_attempt_paisa (pos 0) max_cost_paisa in
    let friction = clamp64 costs.session_friction_paisa (pos 0) max_cost_paisa in
    let n = clamp64 attempts (pos 0) max_ev_attempts in
    let fees = pos_part n * pos_part fee in
    let q = a * pos_part bps / 10_000 in
    let free = (clamp64-Within costs.session_friction_paisa (10 ^ 12)).0 in
    let part = share a (pos_part bps) (basis_points-Within scaled cancelled p).1 in
    let same = sym (expected_value_lem scaled cancelled amount p attempts costs) in
    (
      subst (λ z. z ≤ℤ pos (pos_part amount)) same
          (at_most q fees (pos_part amount) friction
            (omega (arith, part, clamp_down amount (10 ^ 14))) free),
      λ h.
          subst (λ z. z ≤ℤ pos 0) same
            (at_most q fees 0 friction
              (subst
                (λ c.
                  a * pos_part (if c then pos 0 else prob_to_basis_points scaled p) / 10_000 ≤ 0)
                (sym h) (omega arith))
              free),
    )
