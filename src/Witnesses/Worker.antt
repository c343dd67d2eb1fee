-- ===== src/Witnesses/Worker.antt =====
-- internal/worker at concrete inputs: a delivery of one incident, in calm and in an outage, and a sweep.
use resilient_mesh_razorpayb.Worker.Interleaved.{
  Ticket, Interleaved, Interleaved-Spared, pursued, claimed,
}
use resilient_mesh_razorpayb.Worker.Handle.{pursue, payment_from, verified}
use resilient_mesh_razorpayb.Store.Incidents.{
  claim, claim_number, increment_incident_attempts, find_row,
}
use resilient_mesh_razorpayb.Base.{List, ◌+ℤ◌}
use resilient_mesh_razorpayb.Outbox.Relay.{lost}
use resilient_mesh_razorpayb.Worker.Steps.{calls}
use resilient_mesh_razorpayb.Worker.Stranded.{IsPlain, handle_stranded}
use resilient_mesh_razorpayb.Worker.Settled.{Rested, handle_settles}
use resilient_mesh_razorpayb.Worker.Allowance.{units_spent, units_spent-limit}
use resilient_mesh_razorpayb.Worker.Requeued.{Requeued, claimed_ids, sweep_due-Requeued}
use resilient_mesh_razorpayb.Worker.Sweep.{SweepTime, sweep_due}
use resilient_mesh_razorpayb.Store.Incidents.{
  scheduled, claim_due_incidents, due_rows, due_by, insert_due,
}
use resilient_mesh_razorpayb.Outbox.Table.{bound_limit}
use resilient_mesh_razorpayb.Domain.Times.{zero_time}
use resilient_mesh_razorpayb.Base.{◌-ℤ◌, ◌≡◌, refl, ◌⊎◌, ◌≢◌, All, ◌≤ℤ◌, arith, float_one, map}
use resilient_mesh_razorpayb.Gatekeeper.Decide
use resilient_mesh_razorpayb.Gatekeeper.Decide.{
  command, verdict, mandates, place, vetoes, decide, gather,
}
use resilient_mesh_razorpayb.Gatekeeper.State.{begin, read_proposal, clamp_attempt}
use resilient_mesh_razorpayb.Gatekeeper.MandateRules.{
  bound_delay, allow_refresh, cap_cycle, respect_halt, cap_afa, require_notice, impose_cooling,
  category_of, required_wait,
}
use resilient_mesh_razorpayb.Gatekeeper.Rules.{
  schedule, require_listed_rail, require_session, require_recoverable, require_confidence,
  stop_attempts, halt_terminal, pin_amount, retry_delay, backoff_seconds,
}
use resilient_mesh_razorpayb.Gatekeeper.Config
use resilient_mesh_razorpayb.Domain.Vocabulary.{
  parse_action, action_of_name, valid_action, rail_from_method, parse_failure_class, class_of_name,
  recoverable, parse_rail, rail_of_name,
}
use resilient_mesh_razorpayb.Domain.Fold.{fold_upper, normalise_code, fold_lower}
use resilient_mesh_razorpayb.Text.{trim_space}
use resilient_mesh_razorpayb.Domain.Records.{is_recurring, executable, min_confidence_to_act_on}
use resilient_mesh_razorpayb.Domain.Taxonomy.{is_terminal_decline, has_code, afa_ceiling_paisa}
use resilient_mesh_razorpayb.Gatekeeper.Helpers.{
  money_pinned, fallback_backoff_seconds, chargeable, morph_target_accepted, rail_eq, seconds_until,
  notice_satisfied,
}
use resilient_mesh_razorpayb.Domain.Times.{time_sub}
use resilient_mesh_razorpayb.Store.Incidents.{
  find_row, get_incident, increment_incident_attempts, claim, claim_number, update_incident_state,
  with_state, recovered, executing, IncidentState, IncidentRow,
}
use resilient_mesh_razorpayb.Store.Sessions.{is_expired}
use resilient_mesh_razorpayb.Worker.Config.{spend_retry_budget, in_window, truncate_minute}
use resilient_mesh_razorpayb.Worker.State.{run_statement, failed, handled}
use resilient_mesh_razorpayb.Worker.Execute.{
  conclude, learn_from_outcome, settle, attempt, charge, must_wait, deliver, execute,
}
use resilient_mesh_razorpayb.Worker.Handle.{
  verified, payment_from, session_live, diagnose, choose_delay, load_mandate, gate_input, enact,
  decide_on, pursue, claim_then, take_up, resume,
}
use resilient_mesh_razorpayb.Text.Runes.{rune_count, valid_string, rune_size}
use resilient_mesh_razorpayb.Base.{refl, true, false, none, some, [], ◌∷◌, pos}
use resilient_mesh_razorpayb.Text.{codes}
use resilient_mesh_razorpayb.Outbox.Relay.{done}
use resilient_mesh_razorpayb.Store.Checks.{check_text, check_json, require}
use resilient_mesh_razorpayb.Store.Incidents.{insert_incident, validate_incident}
use resilient_mesh_razorpayb.Worker.Config.{Config, with_defaults}
use resilient_mesh_razorpayb.Worker.State.{World}
use resilient_mesh_razorpayb.Worker.Handle.{handle, dispatch}
use resilient_mesh_razorpayb.Worker.Runs.{Runs, begun, taken_in, dispatched, Runs-Spared}
use resilient_mesh_razorpayb.Worker.Spared.{Spared}
use resilient_mesh_razorpayb.Worker.Presented.{Delivers, handle-Delivers}
use resilient_mesh_razorpayb.Witnesses.Payments.{upi_payment, noon}
use resilient_mesh_razorpayb.Witnesses.Incidents.{
  settings, pool, incident, calm, outage, message, empty, waiting,
}

inserted : Runs pool waiting
unfolding insert_incident require validate_incident check_text check_json rune_count valid_string
inserted =
    taken_in (λ b. true) noon incident _ (begun [] [] (record { window = pos 0; spent = pos 0 }))
      refl

Runs-Spared_example : Spared pool (codes "inc_1") (dispatch pool outage true true message waiting).0
Runs-Spared_example =
    Runs-Spared pool (codes "inc_1") (dispatched outage true true message inserted)

-- The claim of the incident, whose worker goes on in the outage.
abbrev ticket : Ticket
ticket = record {
  incident = incident;
  payment = upi_payment;
  number = pos 1;
  due = true;
  agrees = refl;
}

abbrev taken : World
taken = record empty {
  incidents =
      (record {
        incident = record incident { attempt_count = pos 1; state = executing };
        scheduled_for = none;
      })
      ∷ [];
}

one_claimed : Interleaved pool (ticket ∷ []) taken
unfolding insert_incident require validate_incident check_text check_json rune_count rune_size
    valid_string payment_from verified increment_incident_attempts claim_number claim find_row ◌+ℤ◌
one_claimed =
    claimed outage ticket taken.incidents
      (Interleaved.taken_in (λ b. true) noon incident waiting.incidents
        (Interleaved.begun [] [] (record { window = pos 0; spent = pos 0 })) refl)
      refl refl

Interleaved-Spared_example :
    Spared pool (codes "inc_1") (pursue pool outage incident upi_payment (pos 1) true taken).0
Interleaved-Spared_example =
    Interleaved-Spared pool (codes "inc_1") (pursued outage [] [] ticket one_claimed)

handle-Delivers_example : Delivers pool waiting (handle pool outage message waiting).0
handle-Delivers_example = handle-Delivers pool outage message waiting

abbrev states : World → List IncidentState
states w = map (λ (r : IncidentRow). r.incident.state) w.incidents

-- A delivery in the outage fails after one call of the gateway, and leaves the incident in execution;
-- when all is calm it is handled with one call, and the incident is recovered.
outcomes :
    ((handle pool outage message waiting).1 ≡ failed)
    × (calls (handle pool outage message waiting).0.log ≡ 1)
    × (states (handle pool outage message waiting).0 ≡ executing ∷ [])
    × ((handle pool calm message waiting).1 ≡ handled)
    × (calls (handle pool calm message waiting).0.log ≡ 1)
    × (states (handle pool calm message waiting).0 ≡ recovered ∷ [])
unfolding handle resume get_incident require check_text rune_count rune_size valid_string find_row
    take_up payment_from verified claim_then increment_incident_attempts claim_number claim pursue
    session_live is_expired diagnose load_mandate decide_on choose_delay gate_input enact execute
    deliver must_wait charge spend_retry_budget in_window truncate_minute attempt settle
    learn_from_outcome conclude run_statement update_incident_state with_state decide money_pinned
    command verdict Decide.settle mandates place vetoes begin read_proposal bound_delay
    allow_refresh cap_cycle respect_halt cap_afa require_notice impose_cooling schedule
    require_listed_rail require_session require_recoverable require_confidence stop_attempts
    halt_terminal pin_amount Config.with_defaults parse_action action_of_name fold_upper trim_space
    valid_action rail_from_method is_recurring parse_failure_class class_of_name recoverable
    is_terminal_decline has_code normalise_code fold_lower retry_delay backoff_seconds
    fallback_backoff_seconds executable min_confidence_to_act_on chargeable morph_target_accepted
    rail_eq parse_rail rail_of_name required_wait seconds_until time_sub ◌-ℤ◌ notice_satisfied
    afa_ceiling_paisa category_of ◌+ℤ◌ clamp_attempt with_defaults float_one
outcomes = (refl, refl, refl, refl, refl, refl)

outage-IsPlain : IsPlain outage
outage-IsPlain c h = absurd cc

-- The failed delivery is never made good: in calm too, the next one changes nothing.
handle_stranded_example :
    ((handle pool outage message waiting).0.incidents ≡ waiting.incidents)
    ⊎ ((handle pool calm message (handle pool outage message waiting).0).0
        ≡ (handle pool outage message waiting).0)
handle_stranded_example =
    handle_stranded pool outage calm message waiting outage-IsPlain refl outcomes.0

handle_settles_example :
    ((handle pool calm message waiting).0 ≡ waiting)
    ⊎ Rested (codes "inc_1") (handle pool calm message waiting).0.incidents
handle_settles_example =
    handle_settles pool calm message waiting (codes "inc_1") true refl outcomes.3

abbrev scarce : Config
scarce = record settings { retry_budget_per_minute = pos 1 }

-- Two attempts in a minute whose budget has one unit.
units_spent-limit_example :
    pos (units_spent scarce (noon ∷ noon ∷ []) (record { window = pos 0; spent = pos 1 })) ≤ℤ pos 1
units_spent-limit_example =
    units_spent-limit scarce (truncate_minute noon) (noon ∷ noon ∷ [])
      (record { window = pos 0; spent = pos 1 }) (refl, (refl, tt)) (omega arith) (omega arith)
      (omega arith)

-- An incident whose time has come, while the queue is down.
abbrev due : World
due = record empty {
  incidents =
      (record { incident = record incident { state = scheduled }; scheduled_for = some noon }) ∷ [];
}

abbrev queue_down : SweepTime
queue_down = record {
  now = noon;
  db_now = noon;
  locked = λ k. false;
  claiming = done;
  publishing = λ k. lost;
  rearming = λ k. done;
}

later_than_zero : queue_down.now +ℤ pool.cfg.sweep_interval ≢ zero_time
unfolding with_defaults ◌+ℤ◌
later_than_zero h = cc

sweep_due-Requeued_example :
    All (Requeued (sweep_due pool queue_down due)) (claimed_ids pool queue_down due)
unfolding check_text rune_count rune_size valid_string
sweep_due-Requeued_example =
    sweep_due-Requeued pool queue_down due (refl, tt) refl (λ k. refl) later_than_zero

-- The sweep above takes the incident.
due_claimed : claimed_ids pool queue_down due ≡ codes "inc_1" ∷ []
unfolding claim_due_incidents due_rows due_by insert_due bound_limit with_defaults
due_claimed = refl
