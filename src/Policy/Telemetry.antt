-- ===== src/Policy/Telemetry.antt =====
-- internal/domain/decision.go: what a telemetry snapshot says of an issuer; internal/policy/policy.go: the
-- bounds on its counters.
use resilient_mesh_razorpayb.Base.{
  ℕ, zero, suc, ◌+◌, ◌*◌, ◌/◌, ◌%◌, ◌^◌, Bool, true, false, ◌==◌, if◌then◌else◌, ℤ, pos, negsuc,
  ltb_ℤ, Float64, fin, leb_float, ltb_float, float_zero,
}
use resilient_mesh_razorpayb.Domain.Vocabulary.{BreakerState, opened}
use resilient_mesh_razorpayb.Domain.Records.{TelemetrySnapshot}

abbrev degraded_min_samples : ℤ
degraded_min_samples = pos 8

-- 0.35, in the units of Float64.
abbrev pub degraded_absolute_rate : Float64
degraded_absolute_rate = fin (pos (6_305_039_478_318_694 * 2 ^ 1020))

-- Half of a number of units, a tie rounded to the even one.
half_up : ℕ → ℕ
half_up n = if n % 2 == 0 then n / 2 else if n / 2 % 2 == 0 then n / 2 else n / 2 + 1

minus : ℕ → ℤ
minus zero = pos 0
minus (suc n) = negsuc n

-- x * 0.5
unfoldable pub half_float : Float64 → Float64
unfolding half_up minus
half_float (fin (pos n)) = fin (pos (half_up n))
half_float (fin (negsuc n)) = fin (minus (half_up (suc n)))
half_float x = x

-- TelemetrySnapshot.Degraded
unfoldable pub is_degraded : TelemetrySnapshot → Bool
unfolding half_float
is_degraded t =
    if ltb_ℤ t.attempts degraded_min_samples
    then false
    else if ltb_float t.success_rate degraded_absolute_rate
    then true
    else if leb_float t.baseline_rate float_zero
    then false
    else ltb_float t.success_rate (half_float t.baseline_rate)

unfoldable pub clamp64 : ℤ → ℤ → ℤ → ℤ
clamp64 v lo hi = if ltb_ℤ v lo then lo else if ltb_ℤ hi v then hi else v

abbrev max_samples : ℤ
max_samples = pos 1_000_000_000

unfoldable pub clamp_count : ℤ → ℤ
unfolding clamp64
clamp_count v = clamp64 v (pos 0) max_samples

-- No more successes than attempts.
unfoldable pub successes_of : TelemetrySnapshot → ℤ
unfolding clamp_count
successes_of t =
    let attempts = clamp_count t.attempts in
    let successes = clamp_count t.successes in
    if ltb_ℤ attempts successes then attempts else successes

abbrev pub is_open : BreakerState → Bool
is_open opened = true
is_open _ = false
