-- ===== src/Domain/Records.antt =====
-- internal/domain: the records that cross package boundaries (models.go, decision.go, records.go
-- and ports.go). A Go string is `Bytes`, a pointer an `Option`, an int or int64 a `ℤ`.
use resilient_mesh_razorpayb.Base.{
  ◌*◌, ◌^◌, Bool, true, false, not, ◌||◌, Option, List, ℤ, pos, Float64, fin,
}
use resilient_mesh_razorpayb.Text.{Bytes, is_empty}
use resilient_mesh_razorpayb.Domain.Vocabulary.{Action, abstain, Rail, Presentation, BreakerState}
use resilient_mesh_razorpayb.Domain.Times.{Time}

pub record PaymentEntity : Type 0 where
  pub id : Bytes
  pub amount : ℤ
  pub currency : Bytes
  pub status : Bytes
  pub order_id : Bytes
  pub method : Bytes
  pub bank : Bytes
  pub wallet_name : Bytes
  pub vpa : Bytes
  pub international : Bool
  pub subscription_id : Bytes
  pub invoice_id : Bytes
  pub error_code : Bytes
  pub error_reason : Bytes
  pub error_step : Bytes
  pub error_source : Bytes
  pub error_desc : Bytes
  pub created_at : ℤ

-- PaymentEntity.IsRecurring
unfoldable pub is_recurring : PaymentEntity → Bool
is_recurring p = not (is_empty p.subscription_id) || not (is_empty p.invoice_id)

pub record MandateRecord : Type 0 where
  pub subscription_id : Bytes
  pub customer_id : Bytes
  pub amount_paisa : ℤ
  pub last_attempt_at : Option Time
  pub next_eligible_at : Option Time
  pub attempts_in_cycle : ℤ
  pub pre_debit_notified_at : Option Time
  pub cycle_key : Bytes
  pub category : Bytes
  pub halted : Bool
  pub halt_reason : Bytes
  pub updated_at : Time

pub record CodeCount : Type 0 where
  pub code : Bytes
  pub count : ℤ

pub record TelemetrySnapshot : Type 0 where
  pub issuer_key : Bytes
  pub window_seconds : ℤ
  pub attempts : ℤ
  pub successes : ℤ
  pub failures : ℤ
  pub success_rate : Float64
  pub baseline_rate : Float64
  pub p95_latency_ms : ℤ
  pub breaker_state : BreakerState
  pub top_error_codes : List CodeCount
  pub sampled_at : Time

-- What the model says. Every field is untrusted, so the members of closed sets are texts here.
pub record DiagnosticProposal : Type 0 where
  pub incident_id : Bytes
  pub inferred_root_cause : Bytes
  pub failure_classification : Bytes
  pub confidence_score : Float64
  pub recommended_action : Bytes
  pub recommended_delay_sec : ℤ
  pub suggested_fallback_rail : Bytes
  pub reasoning_trace : Bytes
  pub mode : Bytes
  pub model : Bytes
  pub latency_ms : ℤ
  pub degraded : Bool

pub record GateInput : Type 0 where
  pub incident_id : Bytes
  pub payment : PaymentEntity
  pub proposal : DiagnosticProposal
  pub telemetry : TelemetrySnapshot
  pub session_active : Bool
  pub attempt_number : ℤ
  pub mandate : Option MandateRecord
  pub available_rails : List Bytes

-- The names of the gate's rules (the constants `Rule…` of internal/gatekeeper/gatekeeper.go).
pub data Rule : Type 0 where
  amount_pinned terminal_decline stop_max_attempts low_confidence unrecoverable_class : Rule
  session_required rail_allowlist mandate_cooling pre_debit_notice instrument_refreshed : Rule
  afa_ceiling mandate_halted mandate_cycle_cap delay_bounds : Rule

-- SanitizedCommand without AuditTrace, which is text for a reader.
pub record SanitizedCommand : Type 0 where
  pub incident_id : Bytes
  pub payment_id : Bytes
  pub order_id : Bytes
  pub immutable_amount_paisa : ℤ
  pub currency : Bytes
  pub action : Action
  pub target_rail : Rail
  pub execute_after : Time
  pub delay_seconds : ℤ
  pub attempt_number : ℤ
  pub max_attempts : ℤ
  pub pre_debit_notification_needed : Bool
  pub presentation : Presentation
  pub release_on_downtime_resolution : Bool
  pub awaiting_downtime_key : Bytes
  pub applied_invariants : List Rule
  pub proposal_mode : Bytes
  pub proposal_confidence : Float64
  pub proposal_action : Action
  pub overrode_proposal : Bool
  pub decided_at : Time

-- SanitizedCommand.Executable, which reads the action alone.
unfoldable pub executable : Action → Bool
executable abstain = false
executable _ = true

-- Field bounds of decision.go.
abbrev pub max_recommended_delay : ℤ
max_recommended_delay = pos 604_800

-- 0.55 is the float64 4953959590107546 * 2 ^ -53.
unfoldable pub min_confidence_to_act_on : Float64
min_confidence_to_act_on = fin (pos (4_953_959_590_107_546 * 2 ^ 1021))
