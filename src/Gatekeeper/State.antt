-- ===== src/Gatekeeper/State.antt =====
-- internal/gatekeeper/gatekeeper.go: the working state of Decide, and what Decide makes of its input
-- before the first rule. The notes are text for a reader and are left out.
use resilient_mesh_razorpayb.Base.{
  Bool, true, false, not, ◌&&◌, Option, List, [], ◌∷◌, ◌++◌, if◌then◌else◌, list_eq, ℤ, pos, ltb_ℤ,
}
use resilient_mesh_razorpayb.Text.{is_empty}
use resilient_mesh_razorpayb.Domain.Vocabulary.{
  Action, rail_morph, async_retry, mandate_cascade, instrument_refresh, abstain, valid_action,
  parse_action, FailureClass, unknown, parse_failure_class, Rail, no_rail, parse_rail,
  rail_from_method, Presentation, unchanged,
}
use resilient_mesh_razorpayb.Domain.Times.{Time, Duration}
use resilient_mesh_razorpayb.Domain.Records.{is_recurring, TelemetrySnapshot, GateInput, Rule}
use resilient_mesh_razorpayb.Gatekeeper.Config.{Config}

-- The policy engine's BackoffFor, an interface that the gate is given.
abbrev pub Backoff : Type 0
Backoff = ℤ → FailureClass → TelemetrySnapshot → Duration

-- A gate: its effective configuration, and the policy engine, which may be nil.
pub record Gate : Type 0 where
  pub cfg : Config
  pub policy : Option Backoff

-- `decision`: the mutable state of one evaluation.
pub record Decision : Type 0 where
  pub action : Action
  pub rail : Rail
  pub presentation : Presentation
  pub delay : ℤ
  pub pre_debit : Bool
  pub fired : List Rule

abbrev pub fire : Rule → Decision → Decision
fire r d = record d { fired = d.fired ++ r ∷ [] }

abbrev pub veto : Rule → Decision → Decision
veto r d = fire r (record d { action = abstain })

abbrev pub is_abstain : Action → Bool
is_abstain abstain = true
is_abstain _ = false

abbrev pub is_morph : Action → Bool
is_morph rail_morph = true
is_morph _ = false

abbrev pub is_refresh : Action → Bool
is_refresh instrument_refresh = true
is_refresh _ = false

abbrev pub is_cascade : Action → Bool
is_cascade mandate_cascade = true
is_cascade _ = false

-- The proposal read into the closed sets, before any rule.
pub record Reading : Type 0 where
  pub proposal_action : Action
  pub malformed : Bool
  pub working : Action
  pub rail : Rail
  pub class : FailureClass

-- Does the proposal carry another incident's id?
abbrev foreign_proposal : GateInput → Bool
foreign_proposal i =
    not (is_empty i.proposal.incident_id) && not (list_eq i.proposal.incident_id i.incident_id)

one_off : Bool → Action → Action
one_off recurring a = if is_cascade a && not recurring then async_retry else a

unfoldable pub read_proposal : GateInput → Reading
unfolding one_off
read_proposal i =
    let parsed = parse_action i.proposal.recommended_action in
    let foreign = foreign_proposal i in
    record {
      proposal_action = parsed;
      malformed = not (valid_action i.proposal.recommended_action);
      working = one_off (is_recurring i.payment) (if foreign then abstain else parsed);
      rail = if foreign then no_rail else parse_rail i.proposal.suggested_fallback_rail;
      class = if foreign then unknown else parse_failure_class i.proposal.failure_classification;
    }

unfoldable pub clamp_attempt : Config → ℤ → ℤ
clamp_attempt cfg n =
    let low = if ltb_ℤ n (pos 0) then pos 0 else n in
    if ltb_ℤ cfg.max_attempts low then cfg.max_attempts else low

-- What the rules read: the gate, the clock reading, the input and its reading.
pub record Facts : Type 0 where
  pub gate : Gate
  pub now : Time
  pub input : GateInput
  pub reading : Reading

abbrev pub recurring : Facts → Bool
recurring f = is_recurring f.input.payment

abbrev pub failing_rail : Facts → Rail
failing_rail f = rail_from_method f.input.payment.method

unfoldable pub begin : Facts → Decision
begin f = record {
  action = f.reading.working;
  rail = if is_morph f.reading.working then f.reading.rail else failing_rail f;
  presentation = unchanged;
  delay = pos 0;
  pre_debit = false;
  fired = [];
}
