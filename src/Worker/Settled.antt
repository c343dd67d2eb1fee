-- ===== src/Worker/Settled.antt =====
-- internal/worker/worker.go: a delivery that is handled.
use resilient_mesh_razorpayb.Worker.Handle.{pursue, handle, incident_named}
use resilient_mesh_razorpayb.Base.{
  ◌≡◌, refl, sym, ap, ◌∙◌, subst, ◌⊎◌, inl, inr, Bool, true, Option, none, some, List, arith,
  is_some, list_eq, list_eq_refl, Result, ok, err,
}
use resilient_mesh_razorpayb.Text.{Bytes}
use resilient_mesh_razorpayb.Domain.Times.{Time}
use resilient_mesh_razorpayb.Outbox.Relay.{Reply, done, lost, unanswered}
use resilient_mesh_razorpayb.Store.Checks.{StoreError, require}
use resilient_mesh_razorpayb.Store.Incidents.{
  IncidentRow, is_terminal, is_scheduled, has_id, find_row, at_id, update_row, with_state,
  with_schedule, update_incident_state, schedule_incident,
}
use resilient_mesh_razorpayb.Store.Rows.{find_row-map, map_row, find_row-id, at_id-id}
use resilient_mesh_razorpayb.Worker.State.{
  World, Pool, Surroundings, QueueMessage, Answer, handled, run_statement,
}
use resilient_mesh_razorpayb.Worker.Execute.{conclude}
use resilient_mesh_razorpayb.Worker.Outcomes.{handle-cases}
use resilient_mesh_razorpayb.Worker.Endings.{Ending, deferred, closed, pursue-ends}

-- Closed, or scheduled with a due time that the sweep will find.
abbrev pub AtRest : IncidentRow → Type 0
AtRest r =
    (is_terminal r.incident.state ≡ true)
    ⊎ (is_scheduled r.incident.state ≡ true) × (is_some r.scheduled_for ≡ true)

-- The row of an incident, at rest.
abbrev pub Rested : Bytes → List IncidentRow → Type 0
Rested id rows = (r : IncidentRow) × (find_row id rows ≡ some r) × AtRest r

pub updated-Rested :
    (g : IncidentRow → IncidentRow) (id : Bytes) (rows : List IncidentRow) (o : Option IncidentRow)
    → find_row id rows ≡ o
    → is_some o ≡ true
    → ((r : IncidentRow) → (g r).incident.id ≡ r.incident.id)
    → ((r : IncidentRow) → AtRest (g r))
    → Rested id (update_row id g rows)
updated-Rested g id rows none f some_row keep rests = absurd cc
updated-Rested g id rows (some r) f some_row keep rests =
    let mine : has_id id r ≡ true =
      ap (λ (k : Bytes). list_eq k id) (find_row-id id rows r f) ∙ list_eq_refl id in
    let here : at_id id g r ≡ g r = rw mine refl in
    let moved =
      find_row-map (at_id id g) id rows (λ x. at_id-id g id x (keep x))
      ∙ ap (map_row (at_id id g)) f
      ∙ ap some here in
    (g r, moved, rests r)

-- What an ending leaves, if it succeeds.
Ending-Rested :
    (now : Time) (id : Bytes) (rows after : List IncidentRow)
    (r : Result StoreError (List IncidentRow))
    → Ending now id rows r
    → r ≡ ok after
    → Rested id after
unfolding schedule_incident update_incident_state require with_schedule with_state
Ending-Rested now id rows after r (deferred at) h =
    let found : is_some (find_row id rows) ≡ true = ground (arith, h) in
    let same : after ≡ update_row id (with_schedule now at) rows = ground (arith, h) in
    subst (Rested id) (sym same) (
      updated-Rested (with_schedule now at) id rows _ refl found (λ r. refl)
        (λ r. inr (refl, refl)))
Ending-Rested now id rows after r (closed s t) h =
    let found : is_some (find_row id rows) ≡ true = ground (arith, h) in
    let same : after ≡ update_row id (with_state now s) rows = ground (arith, h) in
    subst (Rested id) (sym same)
      (updated-Rested (with_state now s) id rows _ refl found (λ r. refl) (λ r. inl t))

record Settles (id : Bytes) (x : World × Answer) : Type 0 where
  settled : x.1 ≡ handled → Rested id x.0.incidents

ended-Settles :
    (f : World → World) (reply : Reply) (r : Result StoreError (List IncidentRow)) (w : World)
    (now : Time) (id : Bytes)
    → ((v : World) → (f v).incidents ≡ v.incidents)
    → Ending now id w.incidents r
    → Settles id (conclude f (run_statement reply r w))
unfolding conclude run_statement
ended-Settles f done (ok after) w now id keep by_ending = record {
  settled = λ h.
      subst (Rested id) (sym (keep _)) (Ending-Rested now id w.incidents after _ by_ending refl);
}
ended-Settles f done (err x) w now id keep by_ending = record { settled = λ h. absurd cc }
ended-Settles f unanswered (ok after) w now id keep by_ending = record { settled = λ h. absurd cc }
ended-Settles f unanswered (err x) w now id keep by_ending = record { settled = λ h. absurd cc }
ended-Settles f lost (ok after) w now id keep by_ending = record { settled = λ h. absurd cc }
ended-Settles f lost (err x) w now id keep by_ending = record { settled = λ h. absurd cc }

-- For a message that can be decoded: a delivery that is handled has changed nothing, or leaves its
-- incident closed, or scheduled with a due time.
pub handle_settles :
    (p : Pool) (e : Surroundings) (msg : QueueMessage) (w : World) (id : Bytes) (due : Bool)
    → e.decode msg.payload ≡ some (id, due)
    → (handle p e msg w).1 ≡ handled
    → ((handle p e msg w).0 ≡ w) ⊎ Rested (incident_named msg id) (handle p e msg w).0.incidents
handle_settles p e msg w id due d =
    handle-cases p e msg w
      (λ x. x.1 ≡ handled → (x.0 ≡ w) ⊎ Rested (incident_named msg id) x.0.incidents)
      (λ a h. inl refl)
      (λ i payment n rows due' nm at c a.
        let names : nm.id ≡ id = cc in
        let named : i.id ≡ incident_named msg id = nm.same ∙ ap (incident_named msg) names in
        let ends =
          pursue-ends p e i rows (Settles i.id) (λ u same. record { settled = λ h. absurd cc })
            (λ k f r u keep same by_ending.
              ended-Settles f (e.reply k) r u e.db_now i.id keep by_ending)
            payment n due' (record w { incidents = rows }) refl in
        (
          λ h. absurd cc,
          λ h. inr (
              subst
                (λ (k : Bytes).
                  Rested k
                    (pursue p e i payment n due' (record w { incidents = rows })).0.incidents)
                named (ends.settled h)),
        ))
