-- ===== src/Worker/State.antt =====
-- internal/worker/worker.go: what the pipeline works on. Everything around it may fail at every call,
-- and answers through `Surroundings`; what the pipeline changes is a `World`. The details of an audit
-- entry and the log are texts for a reader.
use resilient_mesh_razorpayb.Base.{
  Bool, true, false, Option, List, [], ◌∷◌, ◌++◌, ℤ, Float64, Result, ok,
}
use resilient_mesh_razorpayb.Text.{Bytes}
use resilient_mesh_razorpayb.Domain.Vocabulary.{FailureClass}
use resilient_mesh_razorpayb.Domain.Times.{Time, Duration}
use resilient_mesh_razorpayb.Domain.Records.{
  PaymentEntity, MandateRecord, TelemetrySnapshot, DiagnosticProposal, SanitizedCommand,
}
use resilient_mesh_razorpayb.Gatekeeper.State.{Gate}
use resilient_mesh_razorpayb.Outbox.Relay.{Reply, done, unanswered}
use resilient_mesh_razorpayb.Store.Checks.{StoreError}
use resilient_mesh_razorpayb.Store.Incidents.{Incident, IncidentRow}
use resilient_mesh_razorpayb.Worker.Config.{Config, Budget}
use resilient_mesh_razorpayb.Store.Attempts.{AttemptRecord}
use resilient_mesh_razorpayb.Store.Sessions.{SessionRecord}

-- The kinds of entries that the worker appends to the ledger.
pub data AuditKind : Type 0 where
  diagnosis policy_decision gate_decision notice_sent scheduling attempt_started : AuditKind
  attempt_result closing dead_lettered : AuditKind

-- What the pipeline does to the parts around it, in order.
pub data Event : Type 0 where
  audited : AuditKind → Bytes → Event
  notified : SanitizedCommand → Event
  presented : SanitizedCommand → Event
  observed : Bytes → Bool → Event
  learned : Bytes → Bool → Event

pub record QueueMessage : Type 0 where
  pub id : Bytes
  pub incident_id : Bytes
  pub payload : Bytes
  pub deliveries : ℤ

-- The tables that the pipeline writes, the budget, and the events so far.
pub record World : Type 0 where
  pub incidents : List IncidentRow
  pub mandates : List MandateRecord
  pub attempts : List AttemptRecord
  pub budget : Budget
  pub log : List Event

-- The calls of the store, and the readings of the clock, in one run of the pipeline.
pub data Call : Type 0 where
  get_call claim_call mandate_call close_call notice_get_call notice_save_call : Call
  schedule_call record_call rearm_call finish_call : Call

pub data Reading : Type 0 where
  at_session at_gate at_notice at_schedule at_due at_budget at_start at_completion at_rearm :
      Reading

-- What the learner draws, from an issuer, a class, an attempt, the least delay and an amount.
abbrev pub Tuner : Type 0
Tuner = Bytes → FailureClass → ℤ → ℤ → ℤ → Option ℤ

pub record Surroundings : Type 0 where
  pub reply : Call → Reply
  pub now : Reading → Time
  pub db_now : Time
  pub cancelled : Bool
  pub decode : Bytes → Option (Bytes × Bool)
  pub read_payment : Bytes → Option PaymentEntity
  pub issuer_snapshot : Bytes → TelemetrySnapshot
  pub session_of : Bytes → Option SessionRecord
  pub hub_active : Bytes → Bool
  pub breaker_allows : Bytes → Option Bool
  pub diagnosed : Incident → PaymentEntity → Bool → ℤ → Option DiagnosticProposal
  pub tuner : Option Tuner
  pub past_choice : Bytes → Bool
  pub available_rails : List Bytes
  pub notify : SanitizedCommand → Bool
  pub present : SanitizedCommand → AttemptRecord × Bool
  pub divide : Float64 → Duration → Duration

-- The worker: its configuration and its gate.
pub record Pool : Type 0 where
  pub cfg : Config
  pub gate : Gate

pub data Answer : Type 0 where
  handled failed : Answer

abbrev pub emit : Event → World → World
emit e w = record w { log = w.log ++ e ∷ [] }

-- A statement on the incidents, under a call that may fail: whether it is answered, and the world
-- after it.
unfoldable pub run_statement : Reply → Result StoreError (List IncidentRow) → World → Bool × World
run_statement done (ok rows) w = (true, record w { incidents = rows })
run_statement unanswered (ok rows) w = (false, record w { incidents = rows })
run_statement _ _ w = (false, w)
