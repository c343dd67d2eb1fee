-- ===== src/Worker/Handle/Reading.antt =====
-- internal/worker/worker.go: what Handle reads and asks before it decides.
use resilient_mesh_razorpayb.Base.{
  ◌*◌, ◌/◌, ◌^◌, Bool, true, false, not, ◌&&◌, ◌||◌, Option, none, some, if◌then◌else◌, ℤ, pos,
  pos_part, eqb_ℤ, Float64, fin, Result, ok, err,
}
use resilient_mesh_razorpayb.Text.{Bytes, is_empty, codes}
use resilient_mesh_razorpayb.Domain.Vocabulary.{
  Action, async_retry, mandate_cascade, action_name, parse_action, issuer_outage, class_name,
  parse_failure_class, recoverable,
}
use resilient_mesh_razorpayb.Domain.Times.{second}
use resilient_mesh_razorpayb.Domain.Proposal.{abstain_proposal}
use resilient_mesh_razorpayb.Domain.Records.{
  PaymentEntity, MandateRecord, DiagnosticProposal, GateInput,
}
use resilient_mesh_razorpayb.Policy.Backoff.{backoff_ceiling}
use resilient_mesh_razorpayb.Store.Checks.{StoreError, not_found}
use resilient_mesh_razorpayb.Store.Incidents.{Incident}
use resilient_mesh_razorpayb.Store.Mandates.{get_mandate}
use resilient_mesh_razorpayb.Store.Sessions.{is_expired}
use resilient_mesh_razorpayb.Worker.State.{
  World, Surroundings, emit, Event, mandate_call, at_session,
}
use resilient_mesh_razorpayb.Worker.Execute.{answer_to}

-- The payment entity of the stored payload, if it agrees with the row.
unfoldable pub verified : Incident → Option PaymentEntity → Option PaymentEntity
verified i none = none
verified i (some p) =
    if is_empty p.id then none else if not (eqb_ℤ p.amount i.amount_paisa) then none else some p

-- paymentFrom
unfoldable pub payment_from : Surroundings → Incident → Option PaymentEntity
payment_from e i =
    if is_empty i.raw_payload then none else verified i (e.read_payment i.raw_payload)

-- sessionLive
unfoldable pub session_live : Surroundings → Bytes → Bool
session_live e order = if is_empty order then false else elim (e.session_of order) as (λ o. Bool) [
  | none ↦ false
  | some s ↦ if is_expired s (e.now at_session) then false else e.hub_active s.id
]

-- 0.9, in the units of Float64.
abbrev outage_confidence : Float64
outage_confidence = fin (pos (8_106_479_329_266_893 * 2 ^ 1021))

-- The proposal of an issuer whose breaker is open.
unfoldable pub outage_proposal : Bytes → DiagnosticProposal
outage_proposal id =
    let reason = codes "issuer breaker open; recovery deferred without inference" in
    let abstaining = abstain_proposal id reason (codes "SKIPPED") in
    record abstaining {
      failure_classification = class_name issuer_outage;
      recommended_action = action_name async_retry;
      confidence_score = outage_confidence;
      degraded = false;
    }

abbrev pub is_refused : Option Bool → Bool
is_refused (some false) = true
is_refused _ = false

-- diagnose: the proposal, and whether it comes from the diagnoser.
unfoldable pub diagnose :
    Surroundings → Incident → PaymentEntity → Bool → ℤ → DiagnosticProposal × Bool
unfolding outage_proposal
diagnose e i p live attempt =
    if is_refused (e.breaker_allows i.issuer_key)
    then (outage_proposal i.id, false)
    else elim (e.diagnosed i p live attempt) as (λ o. DiagnosticProposal × Bool) [
      | none ↦ (abstain_proposal i.id (codes "diagnosis unavailable") (codes "HEURISTIC"), false)
      | some d ↦ (d, true)
    ]

abbrev is_delayed : Action → Bool
is_delayed async_retry = true
is_delayed mandate_cascade = true
is_delayed _ = false

-- chooseDelay
unfoldable pub choose_delay :
    Surroundings → Incident → PaymentEntity → DiagnosticProposal → ℤ → Option ℤ
choose_delay e i p d attempt =
    let class = parse_failure_class d.failure_classification in
    let ceiling = backoff_ceiling attempt class (e.issuer_snapshot i.issuer_key) in
    if e.cancelled
      || not (recoverable class)
      || not (is_delayed (parse_action d.recommended_action))
    then none
    else elim e.tuner as (λ o. Option ℤ) [
      | none ↦ none
      | some choose ↦ choose i.issuer_key class attempt (pos (pos_part ceiling / second)) p.amount
    ]

-- The proposal, with the delay that was chosen.
abbrev pub with_choice : Option ℤ → DiagnosticProposal → DiagnosticProposal
with_choice none d = d
with_choice (some delay) d = record d { recommended_delay_sec = delay }

abbrev pub emit_if : Bool → Event → World → World
emit_if b x w = if b then emit x w else w

-- The mandate of a recurring incident; an error is one of the store.
unfoldable pub load_mandate :
    Surroundings → Incident → World → Result StoreError (Option MandateRecord)
load_mandate e i w =
    if i.is_recurring && not (is_empty i.subscription_id)
    then elim (answer_to (e.reply mandate_call) (get_mandate i.subscription_id w.mandates))
        as (λ r. Result StoreError (Option MandateRecord)) [
          | ok m ↦ ok (some m)
          | err not_found ↦ ok none
          | err x ↦ err x
        ]
    else ok none

unfoldable pub gate_input :
    Surroundings
    → Incident
    → Bytes
    → PaymentEntity
    → DiagnosticProposal
    → Bool
    → ℤ
    → Option MandateRecord
    → GateInput
gate_input e i id p d live attempt m = record {
  incident_id = id;
  payment = p;
  proposal = d;
  telemetry = e.issuer_snapshot i.issuer_key;
  session_active = live;
  attempt_number = attempt;
  mandate = m;
  available_rails = e.available_rails;
}
