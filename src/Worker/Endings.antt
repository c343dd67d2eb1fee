-- ===== src/Worker/Endings.antt =====
-- internal/worker/worker.go: how Handle ends once it has claimed an incident: it gives up before a
-- statement on the incident, or one statement ends it.
use resilient_mesh_razorpayb.Base.{
  ◌≡◌, refl, ◌∙◌, Bool, true, false, Option, List, arith, if◌then◌else◌, ℤ, Result, ok, err,
}
use resilient_mesh_razorpayb.Text.{Bytes}
use resilient_mesh_razorpayb.Domain.Times.{Time}
use resilient_mesh_razorpayb.Domain.Records.{SanitizedCommand, PaymentEntity, MandateRecord}
use resilient_mesh_razorpayb.Gatekeeper.Decide.{GateError}
use resilient_mesh_razorpayb.Store.Checks.{StoreError}
use resilient_mesh_razorpayb.Store.Incidents.{
  Incident, IncidentRow, IncidentState, is_terminal, recovered, abandoned, abstained,
  update_incident_state, schedule_incident,
}
use resilient_mesh_razorpayb.Worker.Config.{spend_retry_budget}
use resilient_mesh_razorpayb.Worker.State.{
  World, Pool, Surroundings, Answer, failed, Call, Event, emit, run_statement, audited, notified,
  gate_decision, policy_decision, diagnosis, at_budget,
}
use resilient_mesh_razorpayb.Worker.Execute.{
  conclude, record_pre_debit_notice, put_off, settle, learn_from_outcome, attempt, charge, deliver,
  give_notice, execute,
}
use resilient_mesh_razorpayb.Worker.Handle.{
  emit_if, session_live, diagnose, enact, decide_on, pursue,
}

-- A statement that ends the handling of an incident: it defers the incident or closes it.
pub data Ending (now : Time) (id : Bytes) (rows : List IncidentRow)
    : Result StoreError (List IncidentRow) → Type 0 where
  deferred : (at : Time) → Ending now id rows (schedule_incident now id at rows)
  closed :
      (s : IncidentState)
      → is_terminal s ≡ true
      → Ending now id rows (update_incident_state now id s rows)

learn-incidents :
    (e : Surroundings) (i : Incident) (b : Bool) (w : World)
    → (learn_from_outcome e i b w).incidents ≡ w.incidents
unfolding learn_from_outcome
learn-incidents e i b w = ground arith

notice-incidents :
    (e : Surroundings) (i : Incident) (cmd : SanitizedCommand) (w : World)
    → (give_notice e i cmd w).incidents ≡ w.incidents
unfolding give_notice record_pre_debit_notice
notice-incidents e i cmd w = ground arith

attempt-incidents :
    (e : Surroundings) (i : Incident) (cmd : SanitizedCommand) (w : World)
    → (attempt e i cmd w).incidents ≡ w.incidents
unfolding attempt
attempt-incidents e i cmd w = refl

emit_if-incidents : (b : Bool) (x : Event) (w : World) → (emit_if b x w).incidents ≡ w.incidents
emit_if-incidents true x w = refl
emit_if-incidents false x w = refl

outcome-is_terminal : (b : Bool) → is_terminal (if b then recovered else abandoned) ≡ true
outcome-is_terminal true = refl
outcome-is_terminal false = refl

-- What holds of a failure that leaves the incidents alone, and after every ending, holds of the end.
module _ (p : Pool) (e : Surroundings) (i : Incident) (rows : List IncidentRow)
    (P : World × Answer → Type 0) (lost : (u : World) → u.incidents ≡ rows → P (u, failed))
    (ended : (c : Call) (f : World → World) (r : Result StoreError (List IncidentRow)) (u : World)
      → ((v : World) → (f v).incidents ≡ v.incidents)
      → u.incidents ≡ rows
      → Ending e.db_now i.id u.incidents r
      → P (conclude f (run_statement (e.reply c) r u))) where
  by_test : (b : Bool) (x y : World × Answer) → P x → P y → P (if b then x else y)
  by_test true x y h k = h
  by_test false x y h k = k

  settle-ends :
      (cmd : SanitizedCommand) (well : Bool) (w : World)
      → w.incidents ≡ rows
      → P (settle e i cmd well w)
  unfolding settle
  settle-ends cmd well w s =
      by_test _ _ _ (ended _ _ _ w (λ v. refl) s (deferred _))
        (ended _ _ _ w (λ v. refl) s (closed _ (outcome-is_terminal well)))

  charge-ends : (cmd : SanitizedCommand) (w : World) → w.incidents ≡ rows → P (charge p e i cmd w)
  unfolding charge
  charge-ends cmd w s =
      let budget = (spend_retry_budget p.cfg (e.now at_budget) w.budget).1 in
      let spent = record w { budget = budget } in
      let told = attempt e i cmd spent in
      let well = (e.present cmd).0.succeeded in
      let same = attempt-incidents e i cmd spent ∙ s in
      let taught = learn_from_outcome e i well told in
      by_test _ _ _ (lost spent s) (
        by_test _ _ _ (lost told same)
          (settle-ends cmd well taught (learn-incidents e i well told ∙ same)))

  deliver-ends :
      (cmd : SanitizedCommand) (due : Bool) (w : World)
      → w.incidents ≡ rows
      → P (deliver p e i cmd due w)
  unfolding deliver put_off
  deliver-ends cmd due w s =
      by_test _ _ _ (ended _ _ _ w (λ v. refl) s (deferred _)) (charge-ends cmd w s)

  execute-ends :
      (cmd : SanitizedCommand) (due : Bool) (w : World)
      → w.incidents ≡ rows
      → P (execute p e i cmd due w)
  unfolding execute
  execute-ends cmd due w s =
      let noticed = give_notice e i cmd w in
      by_test _ _ _ (deliver-ends cmd due w s) (
        by_test _ _ _ (deliver-ends cmd due noticed (notice-incidents e i cmd w ∙ s))
          (lost (emit (notified cmd) w) s))

  enact-ends :
      (chosen : Bool) (r : Result GateError SanitizedCommand) (due : Bool) (w : World)
      → w.incidents ≡ rows
      → P (enact p e i chosen r due w)
  unfolding enact
  enact-ends chosen (err x) due w s = lost w s
  enact-ends chosen (ok cmd) due w s =
      let chosen_told = emit_if chosen (audited policy_decision i.id) w in
      let told = emit (audited gate_decision i.id) chosen_told in
      let same = emit_if-incidents chosen (audited policy_decision i.id) w ∙ s in
      by_test _ _ _ (execute-ends cmd due told same)
        (ended _ _ _ told (λ v. refl) same (closed abstained refl))

  decide_on-ends :
      (payment : PaymentEntity) (n : ℤ) (due : Bool) (r : Result StoreError (Option MandateRecord))
      (w : World)
      → w.incidents ≡ rows
      → P (decide_on p e i payment n due r w)
  unfolding decide_on
  decide_on-ends payment n due (err x) w s = lost w s
  decide_on-ends payment n due (ok m) w s = enact-ends _ _ due w s

  pub pursue-ends :
      (payment : PaymentEntity) (n : ℤ) (due : Bool) (w : World)
      → w.incidents ≡ rows
      → P (pursue p e i payment n due w)
  unfolding pursue
  pursue-ends payment n due w s =
      let live = session_live e i.order_id in
      let told = emit_if (diagnose e i payment live n).1 (audited diagnosis i.id) w in
      decide_on-ends payment n due _ told (emit_if-incidents _ (audited diagnosis i.id) w ∙ s)
