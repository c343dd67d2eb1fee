-- ===== src/Worker/Interleaved.antt =====
-- internal/worker/worker.go with the incidents of internal/store: many workers at once. A delivery is
-- taken apart at its claim, the statement that decides between workers; what follows the claim may come
-- at any later time, or never, and sweeps come apart at their statements.
use resilient_mesh_razorpayb.Domain.Times.{Time}
use resilient_mesh_razorpayb.Store.Incidents.{
  find_row, Incident, IncidentRow, insert_incident, increment_incident_attempts,
  claim_due_incidents, schedule_incident,
}
use resilient_mesh_razorpayb.Store.Rows.{
  Claimed, count_of, count_at, count_at-claim, increment-Claimed, schedule_incident-KeepsCounts,
  KeepsCounts,
}
use resilient_mesh_razorpayb.Worker.Claims.{pursue-Step}
use resilient_mesh_razorpayb.Worker.Spared.{
  calls_for-append, Spared, covered, sound_calls, Covers, calls_for,
}
use resilient_mesh_razorpayb.Worker.Runs.{claim_due-count, inserted_row, grown}
use resilient_mesh_razorpayb.Base.{
  ℕ, ◌+◌, ◌≤◌, ◌≡◌, refl, sym, ap, ◌∙◌, subst, ◌⊎◌, Bool, true, ◌&&◌, Option, none, some, List, [],
  ◌∷◌, ◌++◌, arith, if◌then◌else◌, list_eq, list_eq-eq, ℤ, pos_part, ◌≤ℤ◌, leb_ℤ, ok,
}
use resilient_mesh_razorpayb.Text.{Bytes}
use resilient_mesh_razorpayb.Domain.Records.{PaymentEntity, MandateRecord}
use resilient_mesh_razorpayb.Store.Attempts.{AttemptRecord}
use resilient_mesh_razorpayb.Worker.Config.{Budget}
use resilient_mesh_razorpayb.Worker.State.{World, Pool, Surroundings, emit, audited, dead_lettered}
use resilient_mesh_razorpayb.Worker.Handle.{payment_from, pursue}

-- A claim whose worker has not gone on yet.
pub record Ticket : Type 0 where
  pub incident : Incident
  pub payment : PaymentEntity
  pub number : ℤ
  pub due : Bool
  pub agrees : payment.amount ≡ incident.amount_paisa

-- The claims that are open, and the world, that steps of many workers lead to.
pub data Interleaved (p : Pool) : List Ticket → World → Type 0 where
  begun :
      (mandates : List MandateRecord) (attempts : List AttemptRecord) (budget : Budget)
      → Interleaved p [] (record {
        incidents = [];
        mandates = mandates;
        attempts = attempts;
        budget = budget;
        log = [];
      })
  taken_in :
      {ts : List Ticket} {w : World} (json_valid : Bytes → Bool) (db_now : Time) (i : Incident)
      (rows : List IncidentRow)
      → Interleaved p ts w
      → insert_incident json_valid db_now i w.incidents ≡ ok rows
      → Interleaved p ts (record w { incidents = rows })
  claimed :
      {ts : List Ticket} {w : World} (e : Surroundings) (t : Ticket) (rows : List IncidentRow)
      → Interleaved p ts w
      → payment_from e t.incident ≡ some t.payment
      → increment_incident_attempts e.db_now t.incident.id w.incidents ≡ ok (t.number, rows)
      → Interleaved p (t ∷ ts) (record w { incidents = rows })
  pursued :
      {w : World} (e : Surroundings) (before after : List Ticket) (t : Ticket)
      → Interleaved p (before ++ t ∷ after) w
      → Interleaved p (before ++ after) (pursue p e t.incident t.payment t.number t.due w).0
  crashed :
      {w : World} (before after : List Ticket) (t : Ticket)
      → Interleaved p (before ++ t ∷ after) w
      → Interleaved p (before ++ after) w
  parked :
      {ts : List Ticket} {w : World} (id : Bytes)
      → Interleaved p ts w
      → Interleaved p ts (emit (audited dead_lettered id) w)
  swept :
      {ts : List Ticket} {w : World} (db_now at : Time) (limit : ℤ) (locked : Bytes → Bool)
      → Interleaved p ts w
      → Interleaved p ts
          (record w { incidents = (claim_due_incidents db_now at limit locked w.incidents).1 })
  scheduled :
      {ts : List Ticket} {w : World} (db_now at : Time) (id : Bytes) (rows : List IncidentRow)
      → Interleaved p ts w
      → schedule_incident db_now id at w.incidents ≡ ok rows
      → Interleaved p ts (record w { incidents = rows })

-- Whether a claim may still call the gateway for an incident.
abbrev may_call : Pool → Bytes → Ticket → ℕ
may_call p id t =
    if list_eq t.incident.id id && leb_ℤ t.number p.gate.cfg.max_attempts then 1 else 0

abbrev may_calls : Pool → Bytes → List Ticket → ℕ
may_calls p id [] = 0
may_calls p id (t ∷ ts) = may_call p id t + may_calls p id ts

may_calls-append :
    (p : Pool) (id : Bytes) (xs ys : List Ticket)
    → may_calls p id (xs ++ ys) ≡ may_calls p id xs + may_calls p id ys
may_calls-append p id [] ys = omega arith
may_calls-append p id (x ∷ xs) ys = omega (arith, may_calls-append p id xs ys)

-- The calls that were made, and those that may follow.
abbrev Bounded : Pool → Bytes → List Ticket → World → Type 0
Bounded p id ts w =
    Covers (count_at id w.incidents) (calls_for id w.log + may_calls p id ts)
    × (calls_for id w.log + may_calls p id ts ≤ pos_part p.gate.cfg.max_attempts)

fewer-Covers : (o : Option ℤ) (k j : ℕ) → Covers o k → j ≤ k → Covers o j
fewer-Covers none k j h l = omega (arith, h, l)
fewer-Covers (some z) k j h l = (h.0, omega (arith, h.1, l))

-- Fewer calls, and the same count.
fewer :
    (p : Pool) (id : Bytes) (ts us : List Ticket) (w v : World)
    → Bounded p id ts w
    → count_at id v.incidents ≡ count_at id w.incidents
    → calls_for id v.log + may_calls p id us ≤ calls_for id w.log + may_calls p id ts
    → Bounded p id us v
fewer p id ts us w v (covers, room) same less = (
  subst (λ o. Covers o (calls_for id v.log + may_calls p id us)) (sym same)
      (fewer-Covers (count_at id w.incidents) _ _ covers less),
  omega (arith, room, less),
)

-- What a claim adds.
may_call_once :
    (p : Pool) (id : Bytes) (t : Ticket)
    → (may_call p id t ≤ 1)
      × ((may_call p id t ≡ 0)
          ⊎ (list_eq t.incident.id id ≡ true) × (t.number ≤ℤ p.gate.cfg.max_attempts))
may_call_once p id t = ground arith

claimed_Bounded :
    (p : Pool) (id : Bytes) (ts : List Ticket) (w : World) (now : Time) (t : Ticket)
    (rows : List IncidentRow)
    → Bounded p id ts w
    → Claimed now t.incident.id w.incidents rows t.number
    → Bounded p id (t ∷ ts) (record w { incidents = rows })
claimed_Bounded p id ts w now t rows (covers, room) c =
    let b = list_eq t.incident.id id in
    let k = calls_for id w.log + may_calls p id ts in
    let (few, which) = may_call_once p id t in
    let found = λ (y : b ≡ true). ap count_of (
      subst (λ (x : Bytes). find_row x w.incidents ≡ some c.row) (list_eq-eq t.incident.id id y)
        c.found) in
    let bound =
      covered b (count_at id w.incidents) c.row.incident.attempt_count t.number
        p.gate.cfg.max_attempts k (may_call p id t) covers room found c.number few which in
    let same : k + may_call p id t ≡ calls_for id w.log + (may_call p id t + may_calls p id ts) =
      omega arith in
    (
      subst (λ o. Covers o (calls_for id w.log + (may_call p id t + may_calls p id ts)))
          (sym (count_at-claim now t.incident.id id w.incidents rows t.number c))
          (subst (Covers (if b then some t.number else count_at id w.incidents)) same bound.0),
      omega (arith, bound.1),
    )

called_within :
    (a : ℕ) (same : Bool) (n max : ℤ)
    → a ≤ 1
    → (a ≡ 0) ⊎ (same ≡ true) × (n ≤ℤ max)
    → a ≤ (if same && leb_ℤ n max then 1 else 0)
called_within a same n max h w = ground arith

pursued_Bounded :
    (p : Pool) (id : Bytes) (before after : List Ticket) (w : World) (e : Surroundings) (t : Ticket)
    → Bounded p id (before ++ t ∷ after) w
    → Bounded p id (before ++ after) (pursue p e t.incident t.payment t.number t.due w).0
pursued_Bounded p id before after w e t bound =
    let st = pursue-Step p e t.incident t.payment t.number t.due w t.agrees in
    let v = (pursue p e t.incident t.payment t.number t.due w).0 in
    let logged : calls_for id v.log ≡ calls_for id w.log + calls_for id st.events =
      ap (calls_for id) st.log_lem ∙ calls_for-append id w.log st.events in
    let (few, which) = sound_calls p t.incident t.number id st.events st.only in
    let made : calls_for id st.events ≤ may_call p id t =
      called_within (calls_for id st.events) _ t.number p.gate.cfg.max_attempts
        (omega (arith, few, st.few)) which in
    fewer p id (before ++ t ∷ after) (before ++ after) w v bound (st.counts id) (
      omega (
        arith,
        logged,
        made,
        may_calls-append p id before after,
        may_calls-append p id before (t ∷ after),
      ))

-- Every world that many workers lead to, and the calls that their open claims may still make.
bounded :
    (p : Pool) (id : Bytes) {ts : List Ticket} {w : World} → Interleaved p ts w → Bounded p id ts w
unfolding find_row
bounded p id (begun mandates attempts budget) = (omega arith, omega arith)
bounded p id (taken_in {ts = ts} {w = w} json_valid now i rows r h) =
    let k = calls_for id w.log + may_calls p id ts in
    let (row, same, natural) = inserted_row json_valid now i w.incidents rows h in
    let (covers, room) = bounded p id r in
    (
      subst (λ t. Covers (count_at id t) k) (sym same) (grown id row w.incidents k natural covers),
      room,
    )
bounded p id (claimed {ts = ts} {w = w} e t rows r paid h) =
    claimed_Bounded p id ts w e.db_now t rows (bounded p id r)
      (increment-Claimed e.db_now t.incident.id w.incidents rows t.number h)
bounded p id (pursued {w = w} e before after t r) =
    pursued_Bounded p id before after w e t (bounded p id r)
bounded p id (crashed {w = w} before after t r) =
    fewer p id (before ++ t ∷ after) (before ++ after) w w (bounded p id r) refl
      (omega (arith, may_calls-append p id before after, may_calls-append p id before (t ∷ after)))
bounded p id (parked {ts = ts} {w = w} k r) =
    let calls_same = calls_for-append id w.log (audited dead_lettered k ∷ []) in
    fewer p id ts ts w (emit (audited dead_lettered k) w) (bounded p id r) refl
      (omega (arith, calls_same))
bounded p id (swept {ts = ts} {w = w} now at limit locked r) =
    let rows = (claim_due_incidents now at limit locked w.incidents).1 in
    fewer p id ts ts w (record w { incidents = rows }) (bounded p id r)
      (claim_due-count now at limit locked w.incidents id) (omega arith)
bounded p id (scheduled {ts = ts} {w = w} now at k rows r h) =
    let same =
      subst (λ x. KeepsCounts x w.incidents) h
        (schedule_incident-KeepsCounts now k at w.incidents) in
    fewer p id ts ts w (record w { incidents = rows }) (bounded p id r) (same id) (omega arith)

-- However the steps of many workers interleave, and wherever they fail or crash, the gateway was called
-- for an incident at most once for each attempt that its row counts, at most as often as the gate's
-- maximum of attempts, and not at all where the incident has no row.
pub Interleaved-Spared :
    (p : Pool) (id : Bytes) {ts : List Ticket} {w : World} → Interleaved p ts w → Spared p id w
Interleaved-Spared p id {ts} {w} r =
    let (covers, room) = bounded p id r in
    (
      fewer-Covers (count_at id w.incidents) _ (calls_for id w.log) covers (omega arith),
      omega (arith, room),
    )
