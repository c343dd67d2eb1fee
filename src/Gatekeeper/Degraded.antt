-- ===== src/Gatekeeper/Degraded.antt =====
-- internal/gatekeeper/gatekeeper.go on the proposal that internal/domain builds when inference fails.
use resilient_mesh_razorpayb.Base.{◌≡◌, Bool, ok, ltb_float, ap, ◌∙◌}
use resilient_mesh_razorpayb.Text.{Bytes}
use resilient_mesh_razorpayb.Domain.Vocabulary.{abstain}
use resilient_mesh_razorpayb.Domain.Times.{Time}
use resilient_mesh_razorpayb.Domain.Records.{DiagnosticProposal, GateInput, SanitizedCommand}
use resilient_mesh_razorpayb.Domain.Proposal.{abstain_proposal}
use resilient_mesh_razorpayb.Gatekeeper.Config.{IsSafe}
use resilient_mesh_razorpayb.Gatekeeper.State.{Gate}
use resilient_mesh_razorpayb.Gatekeeper.Decide.{decide}
use resilient_mesh_razorpayb.Gatekeeper.Stops.{confidence_low, decide_stops}

-- On the proposal that AbstainProposal builds, for any incident, reason and mode, a command that
-- Decide returns from a gate with a safe configuration abstains, whatever the rest of the input is.
pub decide-abstain_proposal :
    (cancelled : Bool) (g : Gate) (now : Time) (i : GateInput) (cmd : SanitizedCommand)
    (incident reason mode : Bytes)
    → decide cancelled g now i ≡ ok cmd
    → IsSafe g.cfg
    → i.proposal ≡ abstain_proposal incident reason mode
    → cmd.action ≡ abstain
unfolding abstain_proposal
decide-abstain_proposal cancelled g now i cmd incident reason mode h s p =
    let zero_confidence = ap (λ (q : DiagnosticProposal). q.confidence_score) p in
    decide_stops cancelled g now i cmd h (
      confidence_low
        (ap (λ c. ltb_float c g.cfg.min_confidence) zero_confidence ∙ s.confidence_positive))
