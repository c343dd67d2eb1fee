-- ===== src/Modelcheck/Input.antt =====
-- internal/modelcheck/model.go: GateInput, which makes the input of the gate from an abstract state.
use resilient_mesh_razorpayb.Base.{
  suc, ◌-◌, ◌*◌, ◌^◌, false, none, some, List, [], ◌∷◌, if◌then◌else◌, ℤ, pos, negsuc, ◌+ℤ◌, ◌-ℤ◌,
  Float64, fin,
}
use resilient_mesh_razorpayb.Text.{Bytes, codes}
use resilient_mesh_razorpayb.Domain.Vocabulary.{
  closed, transient_degradation, class_name, card, netbanking, upi_intent, rail_name, Rail,
}
use resilient_mesh_razorpayb.Domain.Taxonomy.{general}
use resilient_mesh_razorpayb.Domain.Times.{Time, second}
use resilient_mesh_razorpayb.Domain.Records.{
  PaymentEntity, MandateRecord, TelemetrySnapshot, DiagnosticProposal, GateInput,
}
use resilient_mesh_razorpayb.Modelcheck.Space.{
  State, at, amounts_paisa, categories, category_name, hour_buckets, breaker_states, proposals,
  proposal_delays_sec,
}

abbrev pub payment_method : Bytes
payment_method = codes "card"

abbrev pub failing_rail : Rail
failing_rail = card

abbrev available_rails : List Bytes
available_rails = rail_name card ∷ rail_name upi_intent ∷ rail_name netbanking ∷ []

-- 0.9 and 0.2, in the units of Float64.
abbrev pub nine_tenths : Float64
nine_tenths = fin (pos (8_106_479_329_266_893 * 2 ^ 1021))

abbrev one_fifth : Float64
one_fifth = fin (pos (7_205_759_403_792_794 * 2 ^ 1019))

-- time.Duration(h) * time.Hour
hours_duration : ℤ → ℤ
hours_duration (pos h) = pos (h * (3600 * second))
hours_duration (negsuc h) = negsuc (suc h * (3600 * second) - 1)

unfoldable pub last_attempt : Time → State → Time
unfolding hours_duration
last_attempt now s = now -ℤ hours_duration (at (pos 0) hour_buckets s.hours)

unfoldable pub payment : State → PaymentEntity
payment s = record {
  id = codes "pay_modelcheck";
  amount = at (pos 0) amounts_paisa s.amount;
  currency = codes "INR";
  status = codes "failed";
  order_id = codes "order_modelcheck";
  method = payment_method;
  bank = codes "HDFC";
  wallet_name = [];
  vpa = [];
  international = false;
  subscription_id = if s.recurring then codes "sub_modelcheck" else [];
  invoice_id = [];
  error_code = codes "bank_technical_error";
  error_reason = [];
  error_step = codes "authorization";
  error_source = codes "issuer";
  error_desc = [];
  created_at = pos 0;
}

-- The mandate row, attached whether or not the payment is recurring.
unfoldable pub mandate : Time → State → MandateRecord
mandate now s = record {
  subscription_id = codes "sub_modelcheck";
  customer_id = [];
  amount_paisa = at (pos 0) amounts_paisa s.amount;
  last_attempt_at = some (last_attempt now s);
  next_eligible_at = some (last_attempt now s +ℤ pos (86_400 * second));
  attempts_in_cycle = pos s.attempts;
  pre_debit_notified_at = if s.notified then some (last_attempt now s) else none;
  cycle_key = codes "cycle_modelcheck";
  category = category_name (at general categories s.category);
  halted = s.halted;
  halt_reason = if s.halted then codes "cycle cap reached" else [];
  updated_at = now;
}

unfoldable pub proposal : State → DiagnosticProposal
proposal s =
    let shape = at (record { action = []; rail = [] }) proposals s.proposal in
    record {
      incident_id = codes "inc_modelcheck";
      inferred_root_cause = codes "abstract state under model check";
      failure_classification = class_name transient_degradation;
      confidence_score = nine_tenths;
      recommended_action = shape.action;
      recommended_delay_sec = at (pos 0) proposal_delays_sec s.delay;
      suggested_fallback_rail = shape.rail;
      reasoning_trace = [];
      mode = codes "REPLAY";
      model = [];
      latency_ms = pos 0;
      degraded = false;
    }

-- The issuer key is what PaymentEntity.Issuer makes of the method and the bank.
unfoldable pub telemetry : Time → State → TelemetrySnapshot
telemetry now s = record {
  issuer_key = codes "card:HDFC";
  window_seconds = pos 300;
  attempts = pos 20;
  successes = pos 4;
  failures = pos 16;
  success_rate = one_fifth;
  baseline_rate = nine_tenths;
  p95_latency_ms = pos 0;
  breaker_state = at closed breaker_states s.breaker;
  top_error_codes = [];
  sampled_at = now;
}

-- State.GateInput
unfoldable pub gate_input : Time → State → GateInput
gate_input now s = record {
  incident_id = codes "inc_modelcheck";
  payment = payment s;
  proposal = proposal s;
  telemetry = telemetry now s;
  session_active = s.session_live;
  attempt_number = pos s.attempts;
  mandate = some (mandate now s);
  available_rails = available_rails;
}
