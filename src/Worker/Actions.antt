-- ===== src/Worker/Actions.antt =====
-- internal/worker/worker.go: what execute adds to the log.
use resilient_mesh_razorpayb.Base.{
  ℕ, refl, sym, subst, inl, inr, Bool, true, false, ◌&&◌, List, arith, if◌then◌else◌, Bool-cases,
  is_some, Result, ok, err,
}
use resilient_mesh_razorpayb.Text.{is_empty}
use resilient_mesh_razorpayb.Domain.Records.{SanitizedCommand}
use resilient_mesh_razorpayb.Outbox.Relay.{Reply, done, lost, unanswered}
use resilient_mesh_razorpayb.Store.Checks.{StoreError}
use resilient_mesh_razorpayb.Store.Incidents.{Incident, IncidentRow}
use resilient_mesh_razorpayb.Store.Rows.{
  KeepsCounts, update_incident_state-KeepsCounts, schedule_incident-KeepsCounts,
}
use resilient_mesh_razorpayb.Worker.Config.{spend_retry_budget}
use resilient_mesh_razorpayb.Worker.State.{
  at_budget, attempt_started, World, Pool, Surroundings, Answer, emit, run_statement, audited,
  notified, learned,
}
use resilient_mesh_razorpayb.Worker.Execute.{
  conclude, record_pre_debit_notice, put_off, settle, learn_from_outcome, attempt, charge, deliver,
  give_notice, execute,
}
use resilient_mesh_razorpayb.Worker.Steps.{Step, stay, then_step, more, emitted, called, silent}

module _ (Q : SanitizedCommand → Type 0) where
  pub run_statement-Step :
      (reply : Reply) (r : Result StoreError (List IncidentRow)) (w : World)
      → KeepsCounts r w.incidents
      → Step Q 0 w (run_statement reply r w).1
  unfolding run_statement
  run_statement-Step done (ok rows) w h = silent Q w (record w { incidents = rows }) refl h
  run_statement-Step unanswered (ok rows) w h = silent Q w (record w { incidents = rows }) refl h
  run_statement-Step lost (ok rows) w h = stay Q w
  run_statement-Step done (err x) w h = stay Q w
  run_statement-Step unanswered (err x) w h = stay Q w
  run_statement-Step lost (err x) w h = stay Q w

  pub conclude-Step :
      (n : ℕ) (u : World) (f : World → World) (r : Bool × World)
      → ((v : World) → Step Q 0 v (f v))
      → Step Q n u r.1
      → Step Q n u (conclude f r).0
  unfolding conclude
  conclude-Step n u f (true, w) h s = more Q (omega arith) (then_step Q s (h w))
  conclude-Step n u f (false, w) h s = s

  put_off-Step :
      (p : Pool) (e : Surroundings) (i : Incident) (cmd : SanitizedCommand) (w : World)
      → Step Q 0 w (put_off p e i cmd w).0
  unfolding put_off
  put_off-Step p e i cmd w =
      conclude-Step 0 w _ _ (λ v. emitted Q _ v refl tt)
        (run_statement-Step (e.reply _) _ w (schedule_incident-KeepsCounts _ _ _ w.incidents))

  pub if-Step :
      (n : ℕ) (w : World) (b : Bool) (x y : World × Answer)
      → Step Q n w x.0
      → Step Q n w y.0
      → Step Q n w (if b then x else y).0
  if-Step n w true x y h k = h
  if-Step n w false x y h k = k

  settle-Step :
      (e : Surroundings) (i : Incident) (cmd : SanitizedCommand) (well : Bool) (w : World)
      → Step Q 0 w (settle e i cmd well w).0
  unfolding settle
  settle-Step e i cmd well w =
      if-Step 0 w _ _ _
        (conclude-Step 0 w _ _ (λ v. stay Q v)
          (run_statement-Step (e.reply _) _ w (schedule_incident-KeepsCounts _ _ _ w.incidents)))
        (conclude-Step 0 w _ _ (λ v. emitted Q _ v refl tt)
          (run_statement-Step (e.reply _) _ w
            (update_incident_state-KeepsCounts _ _ _ w.incidents)))

  attempt-Step :
      (e : Surroundings) (i : Incident) (cmd : SanitizedCommand) (w : World)
      → Q cmd
      → Step Q 1 w (attempt e i cmd w)
  unfolding attempt
  attempt-Step e i cmd w q =
      let started = emitted Q (audited attempt_started i.id) w refl tt in
      let made = then_step Q started (called Q cmd _ q) in
      more Q (omega arith) (
        then_step Q
          (then_step Q (then_step Q made (silent Q _ _ refl (λ j. refl))) (emitted Q _ _ refl tt))
          (emitted Q _ _ refl tt))

  record-Step :
      (e : Surroundings) (i : Incident) (w : World) → Step Q 0 w (record_pre_debit_notice e i w)
  unfolding record_pre_debit_notice
  record-Step e i w = elim (Bool-cases (is_empty i.subscription_id)) [
    | inl y ↦ silent Q w _ (rw y refl) (λ j. rw y refl)
    | inr m ↦ silent Q w _ (rw m refl) (λ j. rw m refl)
  ]

  learn-Step :
      (e : Surroundings) (i : Incident) (b : Bool) (w : World)
      → Step Q 0 w (learn_from_outcome e i b w)
  unfolding learn_from_outcome
  learn-Step e i b w = elim (Bool-cases (is_some e.tuner && e.past_choice i.id)) [
    | inl y ↦
        subst (λ t. Step Q 0 w (if t then emit (learned i.id b) w else w)) (sym y)
          (emitted Q _ w refl tt)
    | inr m ↦ subst (λ t. Step Q 0 w (if t then emit (learned i.id b) w else w)) (sym m) (stay Q w)
  ]

  charge-Step :
      (p : Pool) (e : Surroundings) (i : Incident) (cmd : SanitizedCommand) (w : World)
      → Q cmd
      → Step Q 1 w (charge p e i cmd w).0
  unfolding charge
  charge-Step p e i cmd w q =
      let budget = (spend_retry_budget p.cfg (e.now at_budget) w.budget).1 in
      let spent = record w { budget = budget } in
      let paid = silent Q w spent refl (λ j. refl) in
      let told = then_step Q paid (attempt-Step e i cmd spent q) in
      if-Step 1 w _ _ _ (more Q (omega arith) paid) (
        if-Step 1 w _ _ _ (more Q (omega arith) told) (
          more Q (omega arith)
            (then_step Q told (then_step Q (learn-Step e i _ _) (settle-Step e i cmd _ _)))))

  deliver-Step :
      (p : Pool) (e : Surroundings) (i : Incident) (cmd : SanitizedCommand) (due : Bool) (w : World)
      → Q cmd
      → Step Q 1 w (deliver p e i cmd due w).0
  unfolding deliver
  deliver-Step p e i cmd due w q =
      if-Step 1 w _ _ _ (more Q (omega arith) (put_off-Step p e i cmd w))
        (charge-Step p e i cmd w q)

  notice-Step :
      (e : Surroundings) (i : Incident) (cmd : SanitizedCommand) (w : World)
      → Step Q 0 w (give_notice e i cmd w)
  unfolding give_notice
  notice-Step e i cmd w =
      let noted = emitted Q (notified cmd) w refl tt in
      more Q (omega arith) (
        then_step Q (then_step Q noted (record-Step e i (emit (notified cmd) w)))
          (emitted Q _ _ refl tt))

  -- Execute calls the gateway once at most, with its command, and changes no count of attempts.
  pub execute-Step :
      (p : Pool) (e : Surroundings) (i : Incident) (cmd : SanitizedCommand) (due : Bool) (w : World)
      → Q cmd
      → Step Q 1 w (execute p e i cmd due w).0
  unfolding execute
  execute-Step p e i cmd due w q = if-Step 1 w _ _ _ (deliver-Step p e i cmd due w q) (
      if-Step 1 w _ _ _ (then_step Q (notice-Step e i cmd w) (deliver-Step p e i cmd due _ q))
        (more Q (omega arith) (emitted Q _ w refl tt)))
