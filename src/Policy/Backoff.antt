-- ===== src/Policy/Backoff.antt =====
-- internal/policy/policy.go: BackoffCeiling and BackoffFor.
use resilient_mesh_razorpayb.Base.{
  ℕ, zero, suc, ◌-◌, ◌*◌, ◌/◌, Bool, true, false, not, ◌&&◌, ltb, if◌then◌else◌, ℤ, pos, pos_part,
  ◌+ℤ◌, ◌-ℤ◌, ltb_ℤ, leb_ℤ,
}
use resilient_mesh_razorpayb.Domain.Vocabulary.{
  FailureClass, transient_degradation, issuer_outage, network_timeout, psp_degradation,
  customer_action, insufficient_funds,
}
use resilient_mesh_razorpayb.Domain.Times.{Duration, second}
use resilient_mesh_razorpayb.Domain.Records.{TelemetrySnapshot}
use resilient_mesh_razorpayb.Policy.Telemetry.{is_degraded, is_open, successes_of, clamp_count}

abbrev pub min_backoff : Duration
min_backoff = pos (5 * second)

abbrev pub limit_seconds : ℕ
limit_seconds = 604_800

abbrev pub max_backoff : Duration
max_backoff = pos (limit_seconds * second)

abbrev max_backoff_doublings : ℤ
max_backoff_doublings = pos 64

unfoldable pub base_backoff_seconds : FailureClass → ℕ
base_backoff_seconds network_timeout = 15
base_backoff_seconds transient_degradation = 60
base_backoff_seconds psp_degradation = 300
base_backoff_seconds issuer_outage = 900
base_backoff_seconds customer_action = 3600
base_backoff_seconds insufficient_funds = 86_400
base_backoff_seconds _ = limit_seconds

abbrev nearly_dead : TelemetrySnapshot → Bool
nearly_dead t =
    let attempts = pos_part (clamp_count t.attempts) in
    ltb 0 attempts && ltb (pos_part (successes_of t) * 10_000 / attempts) 500

unfoldable pub outage_depth : TelemetrySnapshot → ℕ
outage_depth t =
    if is_open t.breaker_state
    then 4
    else if not (is_degraded t)
    then 1
    else if nearly_dead t
    then 4
    else 2

abbrev is_outage : FailureClass → Bool
is_outage issuer_outage = true
is_outage _ = false

-- The delay of a first attempt.
unfoldable pub first_seconds : FailureClass → TelemetrySnapshot → ℕ
unfolding base_backoff_seconds
first_seconds class t =
    if is_outage class
    then base_backoff_seconds class * outage_depth t
    else base_backoff_seconds class

-- The loop of BackoffCeiling, this many times at most.
unfoldable pub doubled : ℕ → ℕ → ℕ
doubled zero seconds = seconds
doubled (suc n) seconds =
    let rest = doubled n (seconds * 2) in if ltb seconds limit_seconds then rest else seconds

unfoldable pub attempt_in_range : ℤ → ℕ
attempt_in_range n =
    if ltb_ℤ n (pos 1) then 1 else if ltb_ℤ max_backoff_doublings n then 64 else pos_part n

-- BackoffCeiling
unfoldable pub backoff_ceiling : ℤ → FailureClass → TelemetrySnapshot → Duration
unfolding doubled first_seconds attempt_in_range
backoff_ceiling attempt class t =
    let seconds = doubled (attempt_in_range attempt - 1) (first_seconds class t) in
    let capped = if ltb limit_seconds seconds then limit_seconds else seconds in
    if ltb_ℤ (pos (capped * second)) min_backoff then min_backoff else pos (capped * second)

-- Engine.BackoffFor, for a random source and a context that may be cancelled.
unfoldable pub backoff_for :
    (Duration → Duration) → Bool → ℤ → FailureClass → TelemetrySnapshot → Duration
backoff_for int63n cancelled attempt class t =
    let ceiling = backoff_ceiling attempt class t in
    if cancelled
    then ceiling
    else if leb_ℤ ceiling min_backoff
    then min_backoff
    else min_backoff +ℤ int63n ((ceiling -ℤ min_backoff) +ℤ pos 1)
