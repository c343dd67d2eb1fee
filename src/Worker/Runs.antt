-- ===== src/Worker/Runs.antt =====
-- internal/worker/worker.go with the incidents of internal/store: every world that intake, deliveries,
-- redeliveries and sweeps lead to, with failures anywhere.
use resilient_mesh_razorpayb.Store.Due.{unschedule-id}
use resilient_mesh_razorpayb.Worker.State.{
  emit, World, Pool, Surroundings, QueueMessage, audited, dead_lettered,
}
use resilient_mesh_razorpayb.Base.{
  ℕ, ◌≡◌, refl, sym, ap, ◌∙◌, subst, inl, inr, Bool, Option, none, some, List, [], ◌∷◌, ◌++◌, map,
  arith, if◌then◌else◌, Bool-cases, ℤ, neg_part, Result, ok, err,
}
use resilient_mesh_razorpayb.Text.{Bytes}
use resilient_mesh_razorpayb.Domain.Times.{Time}
use resilient_mesh_razorpayb.Domain.Records.{MandateRecord}
use resilient_mesh_razorpayb.Outbox.Relay.{Reply, done, lost, unanswered, answered, takes_effect}
use resilient_mesh_razorpayb.Store.Checks.{StoreError, require}
use resilient_mesh_razorpayb.Store.Incidents.{
  Incident, IncidentRow, find_row, validate_incident, insert_incident, claim_due_incidents,
  unschedule, or_now,
}
use resilient_mesh_razorpayb.Store.Attempts.{AttemptRecord}
use resilient_mesh_razorpayb.Store.Rows.{
  count_at, count_of, find_row-map, map_row, KeepsCounts, schedule_incident-KeepsCounts,
}
use resilient_mesh_razorpayb.Worker.Config.{Budget}
use resilient_mesh_razorpayb.Worker.Execute.{effect_of}
use resilient_mesh_razorpayb.Worker.Handle.{dispatch}
use resilient_mesh_razorpayb.Worker.Sweep.{SweepTime, Sweep, sweep_due, requeue, requeue_all}
use resilient_mesh_razorpayb.Worker.Spared.{
  Covers, Spared, calls_for, calls_for-append, handle-Spared,
}

-- What leads from one world to the next: an incident is inserted, a message is dispatched, or due
-- incidents are swept.
pub data Runs (p : Pool) : World → Type 0 where
  begun :
      (mandates : List MandateRecord) (attempts : List AttemptRecord) (budget : Budget)
      → Runs p (record {
        incidents = [];
        mandates = mandates;
        attempts = attempts;
        budget = budget;
        log = [];
      })
  taken_in :
      {w : World} (json_valid : Bytes → Bool) (db_now : Time) (i : Incident)
      (rows : List IncidentRow)
      → Runs p w
      → insert_incident json_valid db_now i w.incidents ≡ ok rows
      → Runs p (record w { incidents = rows })
  dispatched :
      {w : World} (e : Surroundings) (dead_letter acks : Bool) (msg : QueueMessage)
      → Runs p w
      → Runs p (dispatch p e dead_letter acks msg w).0
  swept : {w : World} (e : SweepTime) → Runs p w → Runs p (sweep_due p e w).world

-- Two worlds that count the same, and have called the gateway alike.
abbrev SameCounts : World → World → Type 0
SameCounts v w = (v.log ≡ w.log) × ((j : Bytes) → count_at j v.incidents ≡ count_at j w.incidents)

unschedule-count :
    (now : Time) (ids : List Bytes) (o : Option IncidentRow)
    → count_of (map_row (unschedule now ids) o) ≡ count_of o
unfolding unschedule
unschedule-count now ids none = refl
unschedule-count now ids (some r) = ground arith

pub claim_due-count :
    (now at : Time) (limit : ℤ) (locked : Bytes → Bool) (rows : List IncidentRow) (j : Bytes)
    → count_at j (claim_due_incidents now at limit locked rows).1 ≡ count_at j rows
unfolding claim_due_incidents
claim_due-count now at limit locked rows j =
    ap count_of (find_row-map _ j rows (unschedule-id now _))
    ∙ unschedule-count now _ (find_row j rows)

effect-count :
    (reply : Reply) (r : Result StoreError (List IncidentRow)) (rows : List IncidentRow) (j : Bytes)
    → KeepsCounts r rows
    → count_at j (effect_of reply r rows) ≡ count_at j rows
effect-count lost r rows j h = refl
effect-count done (ok after) rows j h = h j
effect-count unanswered (ok after) rows j h = h j
effect-count done (err x) rows j h = refl
effect-count unanswered (err x) rows j h = refl

requeue-SameCounts :
    (p : Pool) (e : SweepTime) (id : Bytes) (s : Sweep)
    → SameCounts (requeue p e id s).world s.world
unfolding requeue
requeue-SameCounts p e id s = elim (Bool-cases (answered (e.publishing id))) [
  | inl y ↦ rw y (refl, λ j. refl)
  | inr m ↦ rw m (
    refl,
    λ j.
        effect-count (e.rearming id) _ s.world.incidents j (schedule_incident-KeepsCounts _ id _ _),
  )
]

requeue_all-SameCounts :
    (p : Pool) (e : SweepTime) (ids : List Bytes) (s : Sweep)
    → SameCounts (requeue_all p e ids s).world s.world
unfolding requeue_all
requeue_all-SameCounts p e [] s = (refl, λ j. refl)
requeue_all-SameCounts p e (id ∷ ids) s =
    let rest = requeue_all-SameCounts p e ids (requeue p e id s) in
    let first = requeue-SameCounts p e id s in (rest.0 ∙ first.0, λ j. rest.1 j ∙ first.1 j)

abbrev choice : Reply → Sweep → Sweep → World → Sweep
choice reply x y w =
    let untouched : Sweep = record { world = w; published = [] } in
    if answered reply then x else if takes_effect reply then y else untouched

by_reply :
    (reply : Reply) (x y : Sweep) (w : World)
    → SameCounts x.world w
    → SameCounts y.world w
    → SameCounts (choice reply x y w).world w
by_reply done x y w h k = h
by_reply unanswered x y w h k = k
by_reply lost x y w h k = (refl, λ j. refl)

sweep_due-SameCounts : (p : Pool) (e : SweepTime) (w : World) → SameCounts (sweep_due p e w).world w
unfolding sweep_due
sweep_due-SameCounts p e w =
    let taken =
      λ (j : Bytes). claim_due-count e.db_now e.now p.cfg.sweep_batch e.locked w.incidents j in
    let batch = claim_due_incidents e.db_now e.now p.cfg.sweep_batch e.locked w.incidents in
    let ids = map (λ (r : IncidentRow). r.incident.id) batch.0 in
    let swept : Sweep = record { world = record w { incidents = batch.1 }; published = [] } in
    let all = requeue_all-SameCounts p e ids swept in
    by_reply e.claiming (requeue_all p e ids swept) swept w (all.0, λ j. all.1 j ∙ taken j)
      (refl, taken)

SameCounts-Spared :
    (p : Pool) (id : Bytes) (v w : World) → SameCounts v w → Spared p id w → Spared p id v
SameCounts-Spared p id v w (l, c) (covers, few) =
    let calls = ap (calls_for id) l in (rw (c id, calls) covers, omega (arith, calls, few))

-- A parked message adds no call.
parked-Spared :
    (p : Pool) (id b : Bytes) (w : World)
    → Spared p id w
    → Spared p id (emit (audited dead_lettered b) w)
parked-Spared p id b w (covers, few) =
    let calls : calls_for id (w.log ++ audited dead_lettered b ∷ []) ≡ calls_for id w.log =
      calls_for-append id w.log _ ∙ omega arith in
    (rw calls covers, omega (arith, calls, few))

dispatch-Spared :
    (p : Pool) (id : Bytes) (e : Surroundings) (dead_letter acks : Bool) (msg : QueueMessage)
    (w : World)
    → Spared p id w
    → Spared p id (dispatch p e dead_letter acks msg w).0
unfolding dispatch
dispatch-Spared p id e dead_letter acks msg w s =
    ground (arith, handle-Spared p id e msg w s, parked-Spared p id msg.incident_id w s)

-- A row is added at the end, where it hides none.
pub grown :
    (id : Bytes) (r : IncidentRow) (rows : List IncidentRow) (k : ℕ)
    → neg_part r.incident.attempt_count ≡ 0
    → Covers (count_at id rows) k
    → Covers (count_at id (rows ++ r ∷ [])) k
unfolding find_row
grown id r [] k natural covers = ground arith
grown id r (x ∷ rows) k natural covers = ground (arith, grown id r rows k natural)

pub inserted_row :
    (json_valid : Bytes → Bool) (now : Time) (i : Incident) (before rows : List IncidentRow)
    → insert_incident json_valid now i before ≡ ok rows
    → (r : IncidentRow) × (rows ≡ before ++ r ∷ []) × (neg_part r.incident.attempt_count ≡ 0)
unfolding insert_incident require validate_incident
inserted_row json_valid now i before rows h =
    let stamped = record i {
      received_at = or_now now i.received_at;
      updated_at = or_now now i.updated_at;
    } in
    (record { incident = stamped; scheduled_for = none }, ground (arith, h), ground (arith, h))

insert-Spared :
    (p : Pool) (id : Bytes) (json_valid : Bytes → Bool) (now : Time) (i : Incident)
    (rows : List IncidentRow) (w : World)
    → insert_incident json_valid now i w.incidents ≡ ok rows
    → Spared p id w
    → Spared p id (record w { incidents = rows })
insert-Spared p id json_valid now i rows w h (covers, few) =
    let (r, same, natural) = inserted_row json_valid now i w.incidents rows h in
    (
      subst (λ t. Covers (count_at id t) (calls_for id w.log)) (sym same)
          (grown id r w.incidents (calls_for id w.log) natural covers),
      few,
    )

-- In every world that intake, dispatches and sweeps lead to, whatever fails around them, the gateway was
-- called for an incident at most once for each attempt that its row counts, at most as often as the
-- gate's maximum of attempts, and not at all where the incident has no row.
pub Runs-Spared : (p : Pool) (id : Bytes) {w : World} → Runs p w → Spared p id w
unfolding find_row
Runs-Spared p id (begun mandates attempts budget) = (refl, omega arith)
Runs-Spared p id (taken_in {w = w} json now i rows r h) =
    insert-Spared p id json now i rows w h (Runs-Spared p id r)
Runs-Spared p id (dispatched {w = w} e dl acks msg r) =
    dispatch-Spared p id e dl acks msg w (Runs-Spared p id r)
Runs-Spared p id (swept {w = w} e r) =
    SameCounts-Spared p id (sweep_due p e w).world w (sweep_due-SameCounts p e w)
      (Runs-Spared p id r)
