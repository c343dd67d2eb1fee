-- ===== src/Worker/Handle/Pipeline.antt =====
-- internal/worker/worker.go: Handle, the pipeline of one message, and dispatch.
use resilient_mesh_razorpayb.Base.{
  Bool, Option, none, some, List, if◌then◌else◌, is_some, ℤ, ltb_ℤ, Result, ok, err,
}
use resilient_mesh_razorpayb.Text.{Bytes, is_empty}
use resilient_mesh_razorpayb.Domain.Records.{
  PaymentEntity, MandateRecord, SanitizedCommand, executable,
}
use resilient_mesh_razorpayb.Gatekeeper.Decide.{decide, GateError}
use resilient_mesh_razorpayb.Outbox.Relay.{Reply, done, unanswered}
use resilient_mesh_razorpayb.Store.Checks.{StoreError, not_found, conflict}
use resilient_mesh_razorpayb.Store.Incidents.{
  Incident, IncidentRow, is_terminal, abstained, get_incident, increment_incident_attempts,
  update_incident_state,
}
use resilient_mesh_razorpayb.Worker.State.{
  World, Pool, Surroundings, QueueMessage, Answer, handled, failed, emit, run_statement, audited,
  diagnosis, policy_decision, gate_decision, dead_lettered, get_call, claim_call, close_call,
  at_gate,
}
use resilient_mesh_razorpayb.Worker.Execute.{answer_to, conclude, execute}
use resilient_mesh_razorpayb.Worker.Handle.Reading.{
  payment_from, session_live, diagnose, choose_delay, with_choice, emit_if, load_mandate,
  gate_input,
}

-- What the worker does with a decision.
unfoldable pub enact :
    Pool
    → Surroundings
    → Incident
    → Bool
    → Result GateError SanitizedCommand
    → Bool
    → World
    → World × Answer
enact p e i chosen (err x) due w = (w, failed)
enact p e i chosen (ok cmd) due w =
    let told =
      emit (audited gate_decision i.id) (emit_if chosen (audited policy_decision i.id) w) in
    if executable cmd.action
    then execute p e i cmd due told
    else conclude (λ (v : World). v)
        (run_statement (e.reply close_call)
          (update_incident_state e.db_now i.id abstained told.incidents) told)

-- The decision of the gate on a claimed incident, for its mandate.
unfoldable pub decide_on :
    Pool
    → Surroundings
    → Incident
    → PaymentEntity
    → ℤ
    → Bool
    → Result StoreError (Option MandateRecord)
    → World
    → World × Answer
unfolding enact gate_input
decide_on p e i payment attempt due (err x) w = (w, failed)
decide_on p e i payment attempt due (ok m) w =
    let live = session_live e i.order_id in
    let proposal = (diagnose e i payment live attempt).0 in
    let choice = choose_delay e i payment proposal attempt in
    enact p e i (is_some choice)
      (decide e.cancelled p.gate (e.now at_gate)
        (gate_input e i i.id payment (with_choice choice proposal) live attempt m))
      due w

-- Handle from the claim on.
unfoldable pub pursue :
    Pool → Surroundings → Incident → PaymentEntity → ℤ → Bool → World → World × Answer
unfolding decide_on load_mandate
pursue p e i payment attempt due w =
    let live = session_live e i.order_id in
    let told = emit_if (diagnose e i payment live attempt).1 (audited diagnosis i.id) w in
    decide_on p e i payment attempt due (load_mandate e i told) told

-- What the claim of an incident gives.
unfoldable pub claim_then :
    Reply
    → Result StoreError (ℤ × List IncidentRow)
    → (ℤ → World → World × Answer)
    → World
    → World × Answer
claim_then done (ok (n, rows)) f w = f n (record w { incidents = rows })
claim_then done (err conflict) f w = (w, handled)
claim_then unanswered (ok (n, rows)) f w = (record w { incidents = rows }, failed)
claim_then _ _ f w = (w, failed)

-- Handle on an incident that was read.
unfoldable pub take_up : Pool → Surroundings → Incident → Bool → World → World × Answer
unfolding claim_then
take_up p e i due w =
    if is_terminal i.state then (w, handled) else elim (payment_from e i) as (λ o. World × Answer) [
      | none ↦ (w, failed)
      | some payment ↦
          claim_then (e.reply claim_call) (increment_incident_attempts e.db_now i.id w.incidents)
            (λ n v. pursue p e i payment n due v) w
    ]

-- The reading of the incident.
unfoldable pub resume :
    Pool → Surroundings → Result StoreError Incident → Bool → World → World × Answer
unfolding take_up
resume p e (ok i) due w = take_up p e i due w
resume p e (err not_found) due w = (w, handled)
resume p e (err x) due w = (w, failed)

abbrev pub incident_named : QueueMessage → Bytes → Bytes
incident_named msg id = if is_empty id then msg.incident_id else id

-- Pool.Handle
unfoldable pub handle : Pool → Surroundings → QueueMessage → World → World × Answer
unfolding resume
handle p e msg w = elim (e.decode msg.payload) as (λ o. World × Answer) [
  | none ↦ (w, failed)
  | some (id, due) ↦
      resume p e (answer_to (e.reply get_call) (get_incident (incident_named msg id) w.incidents))
        due w
]

-- What becomes of a message.
pub data Fate : Type 0 where
  acknowledged kept parked : Fate

-- Pool.dispatch, without a panic: whether a dead letter and an acknowledgement can be written is given.
unfoldable pub dispatch : Pool → Surroundings → Bool → Bool → QueueMessage → World → World × Fate
dispatch p e dead_letter acks msg w =
    let (after, answer) = handle p e msg w in
    if ltb_ℤ p.cfg.max_deliveries msg.deliveries
    then (if dead_letter
        then (emit (audited dead_lettered msg.incident_id) w, parked)
        else (w, kept))
    else elim answer as (λ a. World × Fate) [
      | handled ↦ (after, if acks then acknowledged else kept)
      | failed ↦ (after, kept)
    ]
