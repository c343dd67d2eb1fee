-- ===== src/Gatekeeper/Refresh.antt =====
-- internal/gatekeeper/gatekeeper.go: what Decide promises of an instrument refresh, and of the flag
-- that says whether it overrode the proposal.
use resilient_mesh_razorpayb.Base.{◌≡◌, ◌≢◌, ◌↔◌, Bool, true, false, arith, ok}
use resilient_mesh_razorpayb.Domain.Vocabulary.{
  Action, instrument_refresh, abstain, no_rail, rail_from_method, network_token, valid_action,
  parse_action,
}
use resilient_mesh_razorpayb.Domain.Times.{Time}
use resilient_mesh_razorpayb.Domain.Records.{GateInput, SanitizedCommand, is_recurring, executable}
use resilient_mesh_razorpayb.Gatekeeper.Helpers.{rail_eq}
use resilient_mesh_razorpayb.Gatekeeper.State.{Gate, Facts, Decision, failing_rail, read_proposal}
use resilient_mesh_razorpayb.Gatekeeper.MandateRules.{allow_refresh, bound_delay}
use resilient_mesh_razorpayb.Gatekeeper.Decide.{decide, gather, verdict, command, settle, action_eq}
use resilient_mesh_razorpayb.Gatekeeper.Placement.{not_recurring}
use resilient_mesh_razorpayb.Gatekeeper.Money.{decide-every}

abbrev Refreshes : Facts → Decision → Type 0
Refreshes f d =
    d.action ≡ instrument_refresh
    → (d.rail ≡ failing_rail f) × (d.rail ≢ no_rail) × (d.presentation ≡ network_token)

allow_refresh-Refreshes : (f : Facts) (d : Decision) → Refreshes f (allow_refresh f d)
unfolding allow_refresh rail_eq
allow_refresh-Refreshes f d = ground arith

bound_delay-Refreshes : (f : Facts) (d : Decision) → Refreshes f d → Refreshes f (bound_delay f d)
unfolding bound_delay executable
bound_delay-Refreshes f d h = ground arith

verdict-Refreshes : (f : Facts) → Refreshes f (verdict f)
unfolding verdict settle
verdict-Refreshes f = bound_delay-Refreshes f _ (allow_refresh-Refreshes f _)

abbrev RefreshOf : GateInput → SanitizedCommand → Type 0
RefreshOf i cmd =
    cmd.action ≡ instrument_refresh
    → (is_recurring i.payment ≡ false)
      × (cmd.target_rail ≡ rail_from_method i.payment.method)
      × (cmd.target_rail ≢ no_rail)
      × (cmd.presentation ≡ network_token)

command-RefreshOf : (f : Facts) → RefreshOf f.input (command f (verdict f))
unfolding command
command-RefreshOf f e =
    let (own, rail, token) = verdict-Refreshes f e in
    (not_recurring f instrument_refresh e (λ q. cc) (λ q. cc), own, rail, token)

-- A refresh is decided for a one-off payment alone, on the rail of the payment itself, which is a
-- rail, and presents the instrument as a network token.
pub decide_refresh :
    (cancelled : Bool) (g : Gate) (now : Time) (i : GateInput) (cmd : SanitizedCommand)
    → decide cancelled g now i ≡ ok cmd
    → cmd.action ≡ instrument_refresh
    → (is_recurring i.payment ≡ false)
      × (cmd.target_rail ≡ rail_from_method i.payment.method)
      × (cmd.target_rail ≢ no_rail)
      × (cmd.presentation ≡ network_token)
decide_refresh cancelled g now i cmd h =
    decide-every (RefreshOf i) cancelled g now i cmd h (command-RefreshOf (gather g now i))

abbrev FollowsProposal : GateInput → SanitizedCommand → Type 0
FollowsProposal i cmd =
    (cmd.overrode_proposal ≡ false)
    ↔ (valid_action i.proposal.recommended_action ≡ true)
      × (cmd.action ≡ parse_action i.proposal.recommended_action)

action_eq_iff : (a b : Action) → (action_eq a b ≡ true) ↔ (a ≡ b)
unfolding action_eq
action_eq_iff a b = ground arith

command-FollowsProposal :
    (g : Gate) (now : Time) (i : GateInput) (a : Action)
    → FollowsProposal i (command (gather g now i) (verdict (gather g now i)))
unfolding command read_proposal
command-FollowsProposal g now i a = ground (
  arith,
  action_eq_iff (verdict (gather g now i)).action (parse_action i.proposal.recommended_action),
)

-- A command says that it did not override the proposal exactly when the proposal's action is a
-- member of the closed set as it stands, and is the action of the command.
pub decide_overrode :
    (cancelled : Bool) (g : Gate) (now : Time) (i : GateInput) (cmd : SanitizedCommand)
    → decide cancelled g now i ≡ ok cmd
    → (cmd.overrode_proposal ≡ false)
      ↔ (valid_action i.proposal.recommended_action ≡ true)
        × (cmd.action ≡ parse_action i.proposal.recommended_action)
decide_overrode cancelled g now i cmd h =
    decide-every (FollowsProposal i) cancelled g now i cmd h
      (command-FollowsProposal g now i abstain)
