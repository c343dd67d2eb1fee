-- ===== src/Policy/Gated.antt =====
-- internal/policy/policy.go's engine in internal/gatekeeper/gatekeeper.go's gate.
use resilient_mesh_razorpayb.Base.{◌≡◌, false, some, arith, ℤ, pos, ◌≤ℤ◌, ok}
use resilient_mesh_razorpayb.Domain.Vocabulary.{FailureClass, async_retry}
use resilient_mesh_razorpayb.Domain.Times.{Time, Duration}
use resilient_mesh_razorpayb.Domain.Records.{TelemetrySnapshot, GateInput, SanitizedCommand}
use resilient_mesh_razorpayb.Gatekeeper.Helpers.{duration_to_seconds}
use resilient_mesh_razorpayb.Gatekeeper.State.{Backoff, clamp_attempt, read_proposal}
use resilient_mesh_razorpayb.Gatekeeper.Config.{Config}
use resilient_mesh_razorpayb.Gatekeeper.Rules.{backoff_seconds}
use resilient_mesh_razorpayb.Gatekeeper.Decide.{new, decide}
use resilient_mesh_razorpayb.Gatekeeper.Placement.{decide_retry}
use resilient_mesh_razorpayb.Policy.Backoff.{backoff_for, min_backoff}
use resilient_mesh_razorpayb.Policy.Ceiling.{backoff_for-range, Draws}

-- The engine as the gate calls it, under a context that is not cancelled.
abbrev pub engine : (Duration → Duration) → Backoff
engine int63n attempt class t = backoff_for int63n false attempt class t

seconds_of : (d : Duration) → min_backoff ≤ℤ d → pos 5 ≤ℤ duration_to_seconds d
unfolding duration_to_seconds
seconds_of d h = ground (arith, h)

waits :
    (int63n : Duration → Duration) (cfg : Config) (n : ℤ) (c : FailureClass) (t : TelemetrySnapshot)
    → Draws int63n
    → pos 5 ≤ℤ backoff_seconds (new (some (engine int63n)) cfg) n c t
unfolding backoff_seconds new
waits int63n cfg n c t draws =
    seconds_of (engine int63n n c t) (backoff_for-range int63n false n c t draws).0

-- A retry that the gate decides with the policy engine waits five seconds or more, whatever the
-- configuration, the proposal and the telemetry say, if the random source draws in its range.
pub decide_patient :
    (int63n : Duration → Duration) (cfg : Config) (now : Time) (i : GateInput)
    (cmd : SanitizedCommand)
    → Draws int63n
    → decide false (new (some (engine int63n)) cfg) now i ≡ ok cmd
    → cmd.action ≡ async_retry
    → pos 5 ≤ℤ cmd.delay_seconds
decide_patient int63n cfg now i cmd draws h e =
    let g = new (some (engine int63n)) cfg in
    omega (
      arith,
      waits int63n cfg (clamp_attempt g.cfg i.attempt_number) (read_proposal i).class i.telemetry
          draws,
      (decide_retry false g now i cmd h e).1,
    )
