-- ===== src/Witnesses/Payments.antt =====
-- Payments that the gate is asked about: a failed UPI payment and what becomes of it, a failed charge of
-- a mandate, an expired card and a payment of nothing.
use resilient_mesh_razorpayb.Gatekeeper.Decide.{command, verdict, settle, mandates, place, vetoes}
use resilient_mesh_razorpayb.Gatekeeper.State.{begin, read_proposal}
use resilient_mesh_razorpayb.Gatekeeper.MandateRules.{
  bound_delay, allow_refresh, cap_cycle, respect_halt, cap_afa, require_notice, impose_cooling,
}
use resilient_mesh_razorpayb.Gatekeeper.Rules.{
  schedule, require_listed_rail, require_session, require_recoverable, require_confidence,
  stop_attempts, halt_terminal, pin_amount, retry_delay, backoff_seconds,
}
use resilient_mesh_razorpayb.Gatekeeper.Config.{with_defaults}
use resilient_mesh_razorpayb.Domain.Vocabulary.{
  parse_action, action_of_name, valid_action, rail_from_method, parse_failure_class, class_of_name,
  recoverable,
}
use resilient_mesh_razorpayb.Domain.Fold.{fold_upper, normalise_code, fold_lower}
use resilient_mesh_razorpayb.Text.{trim_space}
use resilient_mesh_razorpayb.Domain.Records.{is_recurring}
use resilient_mesh_razorpayb.Domain.Taxonomy.{is_terminal_decline, has_code}
use resilient_mesh_razorpayb.Gatekeeper.Helpers.{fallback_backoff_seconds}
use resilient_mesh_razorpayb.Gatekeeper.State.{begin, Gate}
use resilient_mesh_razorpayb.Gatekeeper.Decide.{
  vetoes, place, mandates, settle, decide, gather, verdict, command,
}
use resilient_mesh_razorpayb.Base.{
  true, false, Option, none, some, refl, ◌≡◌, [], ◌∷◌, pos, float_one, float_zero, ok,
}
use resilient_mesh_razorpayb.Text.{Bytes, codes}
use resilient_mesh_razorpayb.Domain.Times.{Time}
use resilient_mesh_razorpayb.Domain.Vocabulary.{
  closed, abstain, rail_morph, async_retry, mandate_cascade, instrument_refresh,
}
use resilient_mesh_razorpayb.Domain.Records.{
  PaymentEntity, MandateRecord, TelemetrySnapshot, DiagnosticProposal, GateInput, SanitizedCommand,
}
use resilient_mesh_razorpayb.Gatekeeper.Config.{Config, with_defaults}
use resilient_mesh_razorpayb.Gatekeeper.Money.{IsComplete, decide_lem}
use resilient_mesh_razorpayb.Domain.Records.{executable, min_confidence_to_act_on}
use resilient_mesh_razorpayb.Gatekeeper.Helpers.{chargeable}
use resilient_mesh_razorpayb.Base.{◌-ℤ◌}
use resilient_mesh_razorpayb.Gatekeeper.Helpers.{
  morph_target_accepted, rail_eq, seconds_until, notice_satisfied,
}
use resilient_mesh_razorpayb.Domain.Vocabulary.{parse_rail, rail_of_name}
use resilient_mesh_razorpayb.Domain.Times.{time_sub}
use resilient_mesh_razorpayb.Domain.Taxonomy.{afa_ceiling_paisa}
use resilient_mesh_razorpayb.Gatekeeper.MandateRules.{category_of}
use resilient_mesh_razorpayb.Gatekeeper.MandateRules.{required_wait}

abbrev pub unset : Config
unset = record {
  max_attempts = pos 0;
  mandate_cooling_seconds = pos 0;
  mandate_cycle_cap = pos 0;
  min_confidence = float_zero;
}

abbrev pub gate : Gate
gate = record { cfg = with_defaults unset; policy = none }

abbrev pub upi_payment : PaymentEntity
upi_payment = record {
  id = codes "pay_1";
  amount = pos 49_900;
  currency = codes "INR";
  status = codes "failed";
  order_id = codes "order_1";
  method = codes "upi";
  bank = [];
  wallet_name = [];
  vpa = codes "a@upi";
  international = false;
  subscription_id = [];
  invoice_id = [];
  error_code = codes "gateway_timeout";
  error_reason = [];
  error_step = [];
  error_source = [];
  error_desc = [];
  created_at = pos 0;
}

abbrev pub telemetry : TelemetrySnapshot
telemetry = record {
  issuer_key = codes "HDFC";
  window_seconds = pos 60;
  attempts = pos 10;
  successes = pos 5;
  failures = pos 5;
  success_rate = float_zero;
  baseline_rate = float_one;
  p95_latency_ms = pos 900;
  breaker_state = closed;
  top_error_codes = [];
  sampled_at = pos 0;
}

abbrev pub proposal : Bytes → Bytes → DiagnosticProposal
proposal action rail = record {
  incident_id = codes "inc_1";
  inferred_root_cause = codes "timeout";
  failure_classification = codes "TRANSIENT_ISSUER_DEGRADATION";
  confidence_score = float_one;
  recommended_action = action;
  recommended_delay_sec = pos 600;
  suggested_fallback_rail = rail;
  reasoning_trace = [];
  mode = codes "agent";
  model = [];
  latency_ms = pos 12;
  degraded = false;
}

abbrev pub input : PaymentEntity → Bytes → Bytes → Option MandateRecord → GateInput
input p action rail m = record {
  incident_id = codes "inc_1";
  payment = p;
  proposal = proposal action rail;
  telemetry = telemetry;
  session_active = true;
  attempt_number = pos 1;
  mandate = m;
  available_rails = codes "card" ∷ codes "upi" ∷ [];
}

abbrev pub noon : Time
noon = pos 1_700_000_000_000_000_000

abbrev pub tomorrow : Time
tomorrow = pos 1_700_100_000_000_000_000

abbrev pub decided : GateInput → SanitizedCommand
decided i = command (gather gate noon i) (verdict (gather gate noon i))

abbrev pub retried : GateInput
retried = input upi_payment (codes "ASYNC_EXPONENTIAL_RETRY") [] none

abbrev pub morphed : GateInput
morphed = input upi_payment (codes "IN_SESSION_RAIL_MORPH") (codes "card") none

abbrev pub refreshed : GateInput
refreshed =
    input (record upi_payment { method = codes "card"; error_code = codes "card_expired" })
      (codes "INSTRUMENT_REFRESH") [] none

abbrev pub worthless : GateInput
worthless = input (record upi_payment { amount = pos 0 }) (codes "ASYNC_EXPONENTIAL_RETRY") [] none

abbrev pub mandate : MandateRecord
mandate = record {
  subscription_id = codes "sub_1";
  customer_id = codes "cust_1";
  amount_paisa = pos 49_900;
  last_attempt_at = none;
  next_eligible_at = some tomorrow;
  attempts_in_cycle = pos 1;
  pre_debit_notified_at = none;
  cycle_key = codes "2023-11";
  category = [];
  halted = false;
  halt_reason = [];
  updated_at = noon;
}

abbrev pub charged : GateInput
charged =
    input (record upi_payment { subscription_id = codes "sub_1" })
      (codes "MANDATE_COMPLIANT_CASCADE") [] (some mandate)

-- Decide answers each of them.
pub answers : (i : GateInput) → IsComplete i → decide false gate noon i ≡ ok (decided i)
answers i h = decide_lem gate noon i h

-- With the action that was proposed, where no rule objects.
pub actions :
    ((decided retried).action ≡ async_retry)
    × ((decided morphed).action ≡ rail_morph)
    × ((decided refreshed).action ≡ instrument_refresh)
    × ((decided worthless).action ≡ abstain)
    × ((decided charged).action ≡ mandate_cascade)
unfolding command verdict settle mandates place vetoes begin read_proposal bound_delay allow_refresh
    cap_cycle respect_halt cap_afa require_notice impose_cooling schedule require_listed_rail
    require_session require_recoverable require_confidence stop_attempts halt_terminal pin_amount
    with_defaults parse_action action_of_name fold_upper trim_space valid_action rail_from_method
    is_recurring parse_failure_class class_of_name recoverable is_terminal_decline has_code
    normalise_code fold_lower retry_delay backoff_seconds fallback_backoff_seconds executable
    float_one min_confidence_to_act_on chargeable morph_target_accepted rail_eq parse_rail
    rail_of_name required_wait seconds_until time_sub ◌-ℤ◌ notice_satisfied afa_ceiling_paisa
    category_of
actions = (refl, refl, refl, refl, refl)

pub charged-executable : executable (decided charged).action ≡ true
unfolding executable
charged-executable = rw actions.4 refl

pub worthless_idle : executable (decided worthless).action ≡ false
unfolding executable
worthless_idle = rw actions.3 refl

pub charged_recurring : is_recurring charged.payment ≡ true
unfolding is_recurring
charged_recurring = refl
