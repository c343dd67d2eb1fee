-- ===== src/Worker/Outcomes.antt =====
-- internal/worker/worker.go: what Handle does, on every path.
use resilient_mesh_razorpayb.Worker.State.{
  handled, claim_call, get_call, World, Pool, Surroundings, QueueMessage, Answer, failed,
}
use resilient_mesh_razorpayb.Base.{
  ◌≡◌, refl, sym, ap, ◌∙◌, subst, Bool, true, false, Option, none, some, List, arith, if◌then◌else◌,
  ℤ, eqb_ℤ-eq, Result, ok, err, ◌>>◌,
}
use resilient_mesh_razorpayb.Store.Checks.{
  check_text, max_identifier_len, require, StoreError, not_found, conflict, invalid_input,
  unavailable,
}
use resilient_mesh_razorpayb.Text.{Bytes}
use resilient_mesh_razorpayb.Domain.Records.{PaymentEntity}
use resilient_mesh_razorpayb.Outbox.Relay.{Reply, done, lost, unanswered}
use resilient_mesh_razorpayb.Store.Incidents.{
  find_row, Incident, IncidentRow, is_terminal, increment_incident_attempts, get_incident,
}
use resilient_mesh_razorpayb.Store.Rows.{find_row-id, Claimed, increment-Claimed}
use resilient_mesh_razorpayb.Worker.Handle.{
  verified, payment_from, pursue, claim_then, take_up, resume, handle, incident_named,
}
use resilient_mesh_razorpayb.Worker.Execute.{answer_to}
use resilient_mesh_razorpayb.Worker.Steps.{stay, more, Step}
use resilient_mesh_razorpayb.Worker.Claims.{IsSound, pursue-Step}

verified-amount :
    (i : Incident) (o : Option PaymentEntity) (payment : PaymentEntity)
    → verified i o ≡ some payment
    → payment.amount ≡ i.amount_paisa
unfolding verified
verified-amount i none payment h = absurd cc
verified-amount i (some q) payment h = ground (arith, eqb_ℤ-eq q.amount i.amount_paisa, h)

pub payment_from-amount :
    (e : Surroundings) (i : Incident) (payment : PaymentEntity)
    → payment_from e i ≡ some payment
    → payment.amount ≡ i.amount_paisa
unfolding payment_from
payment_from-amount e i payment h =
    ground (arith, verified-amount i (e.read_payment i.raw_payload) payment, h)

-- The row that an incident was read from.
abbrev pub RowOf : Incident → List IncidentRow → Type 0
RowOf i rows = (r : IncidentRow) × (find_row i.id rows ≡ some r) × (r.incident ≡ i)

read_row :
    (id : Bytes) (rows : List IncidentRow) (i : Incident) (b : Bool) (o : Option IncidentRow)
    → find_row id rows ≡ o
    → (let rest : Result StoreError Incident = elim o as (λ t. Result StoreError Incident) [
      | none ↦ err not_found
      | some r ↦ ok r.incident
    ] in
        require b >> rest)
      ≡ ok i
    → (i.id ≡ id) × RowOf i rows
unfolding require
read_row id rows i false o f h = absurd cc
read_row id rows i true none f h = absurd cc
read_row id rows i true (some r) f h =
    let same : r.incident ≡ i = cc in
    let named : id ≡ i.id = sym (find_row-id id rows r f) ∙ ap (λ (x : Incident). x.id) same in
    (sym named, (r, subst (λ (k : Bytes). find_row k rows ≡ some r) named f, same))

get_incident-row :
    (id : Bytes) (rows : List IncidentRow) (i : Incident)
    → get_incident id rows ≡ ok i
    → (i.id ≡ id) × RowOf i rows
unfolding get_incident
get_incident-row id rows i h =
    read_row id rows i (check_text id 1 max_identifier_len) (find_row id rows) refl h

answered_row :
    (reply : Reply) (id : Bytes) (rows : List IncidentRow) (i : Incident)
    → answer_to reply (get_incident id rows) ≡ ok i
    → (i.id ≡ id) × RowOf i rows
answered_row done id rows i h = get_incident-row id rows i h
answered_row lost id rows i h = absurd cc
answered_row unanswered id rows i h = absurd cc

-- The incident that a message is about.
pub record Named (e : Surroundings) (msg : QueueMessage) (i : Incident) : Type 0 where
  pub id : Bytes
  pub due : Bool
  pub decoded : e.decode msg.payload ≡ some (id, due)
  pub same : i.id ≡ incident_named msg id

-- How Handle may end: without a change, with a claim that was made and not answered, or with what
-- follows a claim.
module _ (p : Pool) (e : Surroundings) (msg : QueueMessage) (w : World)
    (P : World × Answer → Type 0) (same : (a : Answer) → P (w, a))
    (made : (i : Incident) (payment : PaymentEntity) (n : ℤ) (rows : List IncidentRow) (due : Bool)
      → Named e msg i
      → RowOf i w.incidents
      → Claimed e.db_now i.id w.incidents rows n
      → payment.amount ≡ i.amount_paisa
      → P (record w { incidents = rows }, failed)
        × P (pursue p e i payment n due (record w { incidents = rows }))) where
  claim_case :
      (i : Incident) (payment : PaymentEntity) (due : Bool) (reply : Reply)
      (r : Result StoreError (ℤ × List IncidentRow))
      → Named e msg i
      → RowOf i w.incidents
      → payment.amount ≡ i.amount_paisa
      → increment_incident_attempts e.db_now i.id w.incidents ≡ r
      → P (claim_then reply r (λ n v. pursue p e i payment n due v) w)
  unfolding claim_then
  claim_case i payment due done (ok (n, rows)) nm at a h =
      (made i payment n rows due nm at (increment-Claimed e.db_now i.id w.incidents rows n h) a).1
  claim_case i payment due unanswered (ok (n, rows)) nm at a h =
      (made i payment n rows due nm at (increment-Claimed e.db_now i.id w.incidents rows n h) a).0
  claim_case i payment due lost (ok (n, rows)) nm at a h = same failed
  claim_case i payment due done (err not_found) nm at a h = same failed
  claim_case i payment due done (err conflict) nm at a h = same handled
  claim_case i payment due done (err invalid_input) nm at a h = same failed
  claim_case i payment due done (err unavailable) nm at a h = same failed
  claim_case i payment due unanswered (err x) nm at a h = same failed
  claim_case i payment due lost (err x) nm at a h = same failed

  paid :
      (i : Incident) (due : Bool) (o : Option PaymentEntity)
      → Named e msg i
      → RowOf i w.incidents
      → payment_from e i ≡ o
      → P (elim o as (λ t. World × Answer) [
        | none ↦ (w, failed)
        | some payment ↦
            claim_then
              (e.reply claim_call)
              (increment_incident_attempts e.db_now i.id w.incidents)
              (λ n v. pursue p e i payment n due v)
              w
      ])
  paid i due none nm at h = same failed
  paid i due (some payment) nm at h =
      claim_case i payment due (e.reply claim_call) _ nm at (payment_from-amount e i payment h) refl

  by_test : (b : Bool) (x y : World × Answer) → P x → P y → P (if b then x else y)
  by_test true x y h k = h
  by_test false x y h k = k

  resumed :
      (r : Result StoreError Incident) (due : Bool)
      → ((i : Incident) → r ≡ ok i → Named e msg i × RowOf i w.incidents)
      → P (resume p e r due w)
  unfolding resume take_up
  resumed (ok i) due at =
      let (nm, row) = at i refl in
      by_test (is_terminal i.state) _ _ (same handled) (paid i due (payment_from e i) nm row refl)
  resumed (err not_found) due at = same handled
  resumed (err conflict) due at = same failed
  resumed (err invalid_input) due at = same failed
  resumed (err unavailable) due at = same failed

  decoded :
      (o : Option (Bytes × Bool))
      → e.decode msg.payload ≡ o
      → P (elim o as (λ t. World × Answer) [
        | none ↦ (w, failed)
        | some (name, due) ↦
            resume p e
              (answer_to (e.reply get_call) (get_incident (incident_named msg name) w.incidents))
              due
              w
      ])
  decoded none d = same failed
  decoded (some (name, due)) d = resumed _ due (λ i h.
      let (id_eq, row) =
        answered_row (e.reply get_call) (incident_named msg name) w.incidents i h in
      (record { id = name; due = due; decoded = d; same = id_eq }, row))

  pub handle-cases : P (handle p e msg w)
  unfolding handle
  handle-cases = decoded (e.decode msg.payload) refl

-- A world that Handle leaves, or one that it reaches by the claim of an incident with the row that was
-- read, and a step under that claim.
pub handle-holds :
    (p : Pool) (e : Surroundings) (w : World) (P : World → Type 0)
    → P w
    → ((i : Incident) (n : ℤ) (rows : List IncidentRow) (v : World)
        → RowOf i w.incidents
        → Claimed e.db_now i.id w.incidents rows n
        → Step (IsSound p i n) 1 (record w { incidents = rows }) v
        → P v)
    → (msg : QueueMessage) → P (handle p e msg w).0
handle-holds p e w P same made msg =
    handle-cases p e msg w (λ x. P x.0) (λ a. same)
      (λ i payment n rows due nm at c a.
        let claimed = record w { incidents = rows } in
        let idle = more (IsSound p i n) (omega arith) (stay (IsSound p i n) claimed) in
        (
          made i n rows claimed at c idle,
          made i n rows _ at c (pursue-Step p e i payment n due claimed a),
        ))
