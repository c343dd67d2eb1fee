-- ===== src/Gatekeeper/Rules.antt =====
-- internal/gatekeeper/gatekeeper.go: the rules 1 to 7 of Decide and the schedule of a retry, each a
-- step on the working state. The texts that explain a rule are for readers and are left out.
use resilient_mesh_razorpayb.Base.{
  Bool, not, ◌&&◌, none, some, if◌then◌else◌, ℤ, pos, ltb_ℤ, leb_ℤ, Float64, leb_float, float_one,
}
use resilient_mesh_razorpayb.Text.{trim_space, to_lower}
use resilient_mesh_razorpayb.Domain.Vocabulary.{
  Action, rail_morph, async_retry, mandate_cascade, abstain, FailureClass, recoverable,
}
use resilient_mesh_razorpayb.Domain.Taxonomy.{is_terminal_decline}
use resilient_mesh_razorpayb.Domain.Records.{
  TelemetrySnapshot, amount_pinned, terminal_decline, stop_max_attempts, low_confidence,
  unrecoverable_class, session_required, rail_allowlist, max_recommended_delay,
}
use resilient_mesh_razorpayb.Gatekeeper.Config.{Config}
use resilient_mesh_razorpayb.Gatekeeper.Helpers.{
  chargeable, morph_target_accepted, fallback_backoff_seconds, duration_to_seconds,
}
use resilient_mesh_razorpayb.Gatekeeper.State.{
  Gate, Decision, fire, veto, is_morph, clamp_attempt, Facts, failing_rail,
}

-- 1. AMOUNT_PINNED
unfoldable pub pin_amount : Facts → Decision → Decision
pin_amount f d =
    if chargeable f.input.payment.amount f.input.payment.currency
    then fire amount_pinned d
    else fire amount_pinned (record d { action = abstain })

-- 2. TERMINAL_DECLINE
unfoldable pub halt_terminal : Facts → Decision → Decision
halt_terminal f d =
    if is_terminal_decline (to_lower (trim_space f.input.payment.error_code))
    then veto terminal_decline d
    else d

-- 3. STOP_RULE_MAX_ATTEMPTS
unfoldable pub stop_attempts : Facts → Decision → Decision
stop_attempts f d =
    if ltb_ℤ f.gate.cfg.max_attempts f.input.attempt_number then veto stop_max_attempts d else d

abbrev pub confident : Config → Float64 → Bool
confident cfg conf = leb_float cfg.min_confidence conf && leb_float conf float_one

-- 4. LOW_CONFIDENCE_ABSTAIN
unfoldable pub require_confidence : Facts → Decision → Decision
require_confidence f d =
    if not (confident f.gate.cfg f.input.proposal.confidence_score)
    then veto low_confidence d
    else d

-- 5. UNRECOVERABLE_CLASS
unfoldable pub require_recoverable : Facts → Decision → Decision
require_recoverable f d =
    if not (recoverable f.reading.class) then veto unrecoverable_class d else d

-- 6. SESSION_REQUIRED_FOR_MORPH
unfoldable pub require_session : Facts → Decision → Decision
require_session f d =
    if is_morph d.action && not f.input.session_active
    then fire session_required (record d { action = async_retry; rail = failing_rail f })
    else d

-- 7. RAIL_ALLOWLIST
unfoldable pub require_listed_rail : Facts → Decision → Decision
require_listed_rail f d =
    if is_morph d.action
      && not (morph_target_accepted d.rail (failing_rail f) f.input.available_rails)
    then fire rail_allowlist (record d { action = async_retry; rail = failing_rail f })
    else d

-- backoffSeconds
unfoldable pub backoff_seconds : Gate → ℤ → FailureClass → TelemetrySnapshot → ℤ
backoff_seconds g attempt class snap = elim g.policy [
  | none ↦ fallback_backoff_seconds attempt
  | some backoff ↦ duration_to_seconds (backoff attempt class snap)
]

-- The delay of a retry: the policy's, or the proposal's if that is longer and schedulable.
unfoldable pub retry_delay : Facts → ℤ
retry_delay f =
    let computed =
      backoff_seconds f.gate (clamp_attempt f.gate.cfg f.input.attempt_number) f.reading.class
        f.input.telemetry in
    let asked = f.input.proposal.recommended_delay_sec in
    if ltb_ℤ computed asked && leb_ℤ asked max_recommended_delay then asked else computed

delay_for : Action → ℤ → ℤ → ℤ
delay_for async_retry retry old = retry
delay_for mandate_cascade retry old = retry
delay_for rail_morph retry old = pos 0
delay_for _ retry old = old

unfoldable pub schedule : Facts → Decision → Decision
unfolding delay_for
schedule f d = record d { delay = delay_for d.action (retry_delay f) d.delay }
