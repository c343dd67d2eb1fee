-- ===== src/Gatekeeper/Decide.antt =====
-- internal/gatekeeper/gatekeeper.go: Decide, which applies the rules in their fixed order, and
-- RequiresMandateHalt.
use resilient_mesh_razorpayb.Base.{
  ℕ, Bool, false, not, ◌||◌, Option, [], ◌==◌, if◌then◌else◌, any, ◌+ℤ◌, Result, ok, err,
}
use resilient_mesh_razorpayb.Text.{is_empty}
use resilient_mesh_razorpayb.Domain.Vocabulary.{
  Action, rail_morph, async_retry, mandate_cascade, instrument_refresh, abstain,
}
use resilient_mesh_razorpayb.Domain.Times.{Time, seconds_duration}
use resilient_mesh_razorpayb.Domain.Records.{
  PaymentEntity, GateInput, Rule, amount_pinned, terminal_decline, stop_max_attempts,
  low_confidence, unrecoverable_class, session_required, rail_allowlist, mandate_cooling,
  pre_debit_notice, instrument_refreshed, afa_ceiling, mandate_halted, mandate_cycle_cap,
  delay_bounds, SanitizedCommand,
}
use resilient_mesh_razorpayb.Gatekeeper.Config.{Config, with_defaults}
use resilient_mesh_razorpayb.Gatekeeper.Sanitize.{normalise_mode}
use resilient_mesh_razorpayb.Gatekeeper.Helpers.{safe_confidence, money_pinned}
use resilient_mesh_razorpayb.Gatekeeper.State.{
  Backoff, Gate, Decision, Facts, read_proposal, clamp_attempt, begin,
}
use resilient_mesh_razorpayb.Gatekeeper.Rules.{
  pin_amount, halt_terminal, stop_attempts, require_confidence, require_recoverable,
  require_session, require_listed_rail, schedule,
}
use resilient_mesh_razorpayb.Gatekeeper.MandateRules.{
  impose_cooling, require_notice, cap_afa, respect_halt, cap_cycle, allow_refresh, bound_delay,
}

-- New
unfoldable pub new : Option Backoff → Config → Gate
new policy cfg = record { cfg = with_defaults cfg; policy = policy }

-- The rules 1 to 5, which can only stop a payment.
unfoldable pub vetoes : Facts → Decision → Decision
vetoes f d =
    require_recoverable f
      (require_confidence f (stop_attempts f (halt_terminal f (pin_amount f d))))

-- The rules 6 and 7, and the schedule.
unfoldable pub place : Facts → Decision → Decision
place f d = schedule f (require_listed_rail f (require_session f d))

-- The rules 8 to 11.
unfoldable pub mandates : Facts → Decision → Decision
mandates f d = cap_cycle f (respect_halt f (cap_afa f (require_notice f (impose_cooling f d))))

-- The rules 11a and 12.
unfoldable pub settle : Facts → Decision → Decision
settle f d = bound_delay f (allow_refresh f d)

unfoldable pub verdict : Facts → Decision
verdict f = settle f (mandates f (place f (vetoes f (begin f))))

action_index : Action → ℕ
action_index rail_morph = 0
action_index async_retry = 1
action_index mandate_cascade = 2
action_index instrument_refresh = 3
action_index abstain = 4

unfoldable pub action_eq : Action → Action → Bool
unfolding action_index
action_eq a b = action_index a == action_index b

pub data GateError : Type 0 where
  abandoned invalid_gate_input money_tampered : GateError

-- The command that a decision becomes.
unfoldable pub command : Facts → Decision → SanitizedCommand
command f d = record {
  incident_id = f.input.incident_id;
  payment_id = f.input.payment.id;
  order_id = f.input.payment.order_id;
  immutable_amount_paisa = f.input.payment.amount;
  currency = f.input.payment.currency;
  action = d.action;
  target_rail = d.rail;
  execute_after = f.now +ℤ seconds_duration d.delay;
  delay_seconds = d.delay;
  attempt_number = clamp_attempt f.gate.cfg f.input.attempt_number;
  max_attempts = f.gate.cfg.max_attempts;
  pre_debit_notification_needed = d.pre_debit;
  presentation = d.presentation;
  release_on_downtime_resolution = false;
  awaiting_downtime_key = [];
  applied_invariants = d.fired;
  proposal_mode = normalise_mode f.input.proposal.mode;
  proposal_confidence = safe_confidence f.input.proposal.confidence_score;
  proposal_action = f.reading.proposal_action;
  overrode_proposal = f.reading.malformed || not (action_eq d.action f.reading.proposal_action);
  decided_at = f.now;
}

abbrev pub gather : Gate → Time → GateInput → Facts
gather g now i = record { gate = g; now = now; input = i; reading = read_proposal i }

release : SanitizedCommand → PaymentEntity → Result GateError SanitizedCommand
release cmd p = if money_pinned cmd p then ok cmd else err money_tampered

-- Decide. The first argument says whether the caller's context is already cancelled, the third is
-- the one clock reading.
unfoldable pub decide : Bool → Gate → Time → GateInput → Result GateError SanitizedCommand
unfolding release
decide cancelled g now i =
    if cancelled
    then err abandoned
    else if is_empty i.incident_id || is_empty i.payment.id
    then err invalid_gate_input
    else release (command (gather g now i) (verdict (gather g now i))) i.payment

rule_index : Rule → ℕ
rule_index amount_pinned = 0
rule_index terminal_decline = 1
rule_index stop_max_attempts = 2
rule_index low_confidence = 3
rule_index unrecoverable_class = 4
rule_index session_required = 5
rule_index rail_allowlist = 6
rule_index mandate_cooling = 7
rule_index pre_debit_notice = 8
rule_index instrument_refreshed = 9
rule_index afa_ceiling = 10
rule_index mandate_halted = 11
rule_index mandate_cycle_cap = 12
rule_index delay_bounds = 13

unfoldable pub rule_eq : Rule → Rule → Bool
unfolding rule_index
rule_eq a b = rule_index a == rule_index b

-- RequiresMandateHalt
unfoldable pub requires_mandate_halt : SanitizedCommand → Bool
requires_mandate_halt cmd = any (rule_eq mandate_cycle_cap) cmd.applied_invariants
