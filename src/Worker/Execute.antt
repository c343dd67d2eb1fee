-- ===== src/Worker/Execute.antt =====
-- internal/worker/worker.go: execute, what a decided command does, and what it records.
use resilient_mesh_razorpayb.Base.{
  Bool, true, false, not, ◌&&◌, some, List, if◌then◌else◌, is_some, pos, ltb_ℤ, eqb_ℤ, Result, ok,
  err,
}
use resilient_mesh_razorpayb.Text.{is_empty}
use resilient_mesh_razorpayb.Domain.Times.{Time, zero_time}
use resilient_mesh_razorpayb.Domain.Records.{MandateRecord, SanitizedCommand}
use resilient_mesh_razorpayb.Outbox.Relay.{Reply, done, lost}
use resilient_mesh_razorpayb.Store.Checks.{StoreError, unavailable}
use resilient_mesh_razorpayb.Store.Incidents.{
  Incident, recovered, abandoned, update_incident_state, schedule_incident,
}
use resilient_mesh_razorpayb.Store.Mandates.{get_mandate, save_mandate}
use resilient_mesh_razorpayb.Store.Attempts.{AttemptRecord, record_attempt}
use resilient_mesh_razorpayb.Worker.Config.{spend_retry_budget, due_at}
use resilient_mesh_razorpayb.Worker.State.{
  World, Pool, Surroundings, Answer, handled, failed, emit, run_statement, audited, notified,
  presented, observed, learned, notice_sent, scheduling, attempt_started, attempt_result, closing,
  notice_get_call, notice_save_call, schedule_call, record_call, rearm_call, finish_call, at_notice,
  at_schedule, at_due, at_budget, at_start, at_completion, at_rearm,
}

-- What a query returns, and what a statement leaves, under a call that may fail.
abbrev pub answer_to {ℓ} : {A : Type ℓ} → Reply → Result StoreError A → Result StoreError A
answer_to done r = r
answer_to _ r = err unavailable

abbrev pub effect_of {ℓ} : {A : Type ℓ} → Reply → Result StoreError A → A → A
effect_of lost r a = a
effect_of _ (ok b) a = b
effect_of _ (err x) a = a

save_notice :
    Surroundings → Result StoreError MandateRecord → List MandateRecord → List MandateRecord
save_notice e (err x) rows = rows
save_notice e (ok m) rows =
    effect_of (e.reply notice_save_call)
      (save_mandate e.db_now (record m { pre_debit_notified_at = some (e.now at_notice) }) rows)
      rows

-- recordPreDebitNotice
unfoldable pub record_pre_debit_notice : Surroundings → Incident → World → World
unfolding save_notice
record_pre_debit_notice e i w = if is_empty i.subscription_id then w else record w {
  mandates =
      save_notice e (answer_to (e.reply notice_get_call) (get_mandate i.subscription_id w.mandates))
        w.mandates;
}

-- The message is handled if the statement was answered.
unfoldable pub conclude : (World → World) → Bool × World → World × Answer
conclude f (true, w) = (f w, handled)
conclude f (false, w) = (w, failed)

-- A command whose time has not come is put off.
unfoldable pub put_off : Pool → Surroundings → Incident → SanitizedCommand → World → World × Answer
unfolding conclude
put_off p e i cmd w =
    let at = due_at e.divide p.cfg (e.now at_due) cmd in
    conclude (emit (audited scheduling i.id))
      (run_statement (e.reply schedule_call) (schedule_incident e.db_now i.id at w.incidents) w)

abbrev or_else : Time → Time → Time
or_else t now = if eqb_ℤ t zero_time then now else t

-- The record of an attempt, with what execute fills in.
unfoldable pub completed : Surroundings → Incident → AttemptRecord → AttemptRecord
completed e i a = record a {
  incident_id = i.id;
  started_at = or_else a.started_at (e.now at_start);
  completed_at = or_else a.completed_at (e.now at_completion);
}

-- learnFromOutcome
unfoldable pub learn_from_outcome : Surroundings → Incident → Bool → World → World
learn_from_outcome e i succeeded w =
    if is_some e.tuner && e.past_choice i.id then emit (learned i.id succeeded) w else w

-- The state of the incident after an attempt that reached the gateway.
unfoldable pub settle : Surroundings → Incident → SanitizedCommand → Bool → World → World × Answer
unfolding conclude
settle e i cmd succeeded w =
    if not succeeded && ltb_ℤ cmd.attempt_number cmd.max_attempts
    then conclude (λ (v : World). v)
        (run_statement (e.reply rearm_call)
          (schedule_incident e.db_now i.id (e.now at_rearm) w.incidents) w)
    else conclude (emit (audited closing i.id)) (
        run_statement (e.reply finish_call)
          (update_incident_state e.db_now i.id (if succeeded then recovered else abandoned)
            w.incidents)
          w)

-- The attempt with its records: the world before it is settled.
unfoldable pub attempt : Surroundings → Incident → SanitizedCommand → World → World
attempt e i cmd w =
    let started = emit (audited attempt_started i.id) w in
    let called = emit (presented cmd) started in
    let taken = completed e i (e.present cmd).0 in
    let saved = record called {
      attempts =
          effect_of (e.reply record_call)
            (record_attempt e.db_now called.incidents taken called.attempts) called.attempts;
    } in
    emit (audited attempt_result i.id) (emit (observed i.issuer_key taken.succeeded) saved)

-- A command whose time has come is presented, if the budget allows.
unfoldable pub charge : Pool → Surroundings → Incident → SanitizedCommand → World → World × Answer
unfolding learn_from_outcome
charge p e i cmd w =
    let (granted, budget) = spend_retry_budget p.cfg (e.now at_budget) w.budget in
    let spent = record w { budget = budget } in
    let told = attempt e i cmd spent in
    let succeeded = (e.present cmd).0.succeeded in
    if not granted
    then (spent, failed)
    else if (e.present cmd).1
    then (told, failed)
    else settle e i cmd succeeded (learn_from_outcome e i succeeded told)

-- The time of the command has not come, and the message does not say that it has.
unfoldable pub must_wait : Surroundings → SanitizedCommand → Bool → Bool
must_wait e cmd due =
    not due && (ltb_ℤ (pos 0) cmd.delay_seconds && ltb_ℤ (e.now at_schedule) cmd.execute_after)

unfoldable pub deliver :
    Pool → Surroundings → Incident → SanitizedCommand → Bool → World → World × Answer
deliver p e i cmd due w = if must_wait e cmd due then put_off p e i cmd w else charge p e i cmd w

-- The notice before a recurring debit.
unfoldable pub give_notice : Surroundings → Incident → SanitizedCommand → World → World
give_notice e i cmd w =
    emit (audited notice_sent i.id) (record_pre_debit_notice e i (emit (notified cmd) w))

-- Pool.execute; the last component of `present` is an error of the transport.
unfoldable pub execute :
    Pool → Surroundings → Incident → SanitizedCommand → Bool → World → World × Answer
execute p e i cmd due w =
    if not cmd.pre_debit_notification_needed
    then deliver p e i cmd due w
    else if e.notify cmd
    then deliver p e i cmd due (give_notice e i cmd w)
    else (emit (notified cmd) w, failed)
