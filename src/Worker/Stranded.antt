-- ===== src/Worker/Stranded.antt =====
-- internal/worker/worker.go: a delivery that fails after it has claimed its incident.
use resilient_mesh_razorpayb.Worker.Endings.{pursue-ends}
use resilient_mesh_razorpayb.Worker.State.{
  World, Pool, Surroundings, QueueMessage, Answer, failed, Call, run_statement,
}
use resilient_mesh_razorpayb.Worker.Handle.{handle, incident_named}
use resilient_mesh_razorpayb.Base.{
  ◌≡◌, refl, sym, ap, ◌∙◌, ◌≢◌, ◌⊎◌, inl, inr, true, false, some, List, list_eq, list_eq_refl, ℤ,
  Result, ok, err,
}
use resilient_mesh_razorpayb.Text.{Bytes}
use resilient_mesh_razorpayb.Domain.Times.{Time}
use resilient_mesh_razorpayb.Outbox.Relay.{Reply, done, lost, unanswered}
use resilient_mesh_razorpayb.Store.Checks.{StoreError}
use resilient_mesh_razorpayb.Store.Incidents.{
  Incident, IncidentRow, find_row, is_waiting, has_id, at_id, claim,
}
use resilient_mesh_razorpayb.Store.Rows.{
  Claimed, find_row-map, map_row, find_row-id, at_id-id, claim-id,
}
use resilient_mesh_razorpayb.Worker.Execute.{conclude}
use resilient_mesh_razorpayb.Worker.Outcomes.{Named, handle-cases}
use resilient_mesh_razorpayb.Worker.Redelivery.{handle_idle}

-- No call takes effect without an answer.
abbrev pub IsPlain : Surroundings → Type 0
IsPlain e = (c : Call) → e.reply c ≢ unanswered

-- A failure leaves the incidents as they are.
record Keeps (rows : List IncidentRow) (x : World × Answer) : Type 0 where
  kept : x.1 ≡ failed → x.0.incidents ≡ rows

concluded :
    (f : World → World) (reply : Reply) (r : Result StoreError (List IncidentRow)) (w : World)
    (rows : List IncidentRow)
    → reply ≢ unanswered
    → w.incidents ≡ rows
    → Keeps rows (conclude f (run_statement reply r w))
unfolding conclude run_statement
concluded f done (ok after) w rows n same = record { kept = λ h. absurd cc }
concluded f done (err x) w rows n same = record { kept = λ h. same }
concluded f lost (ok after) w rows n same = record { kept = λ h. same }
concluded f lost (err x) w rows n same = record { kept = λ h. same }
concluded f unanswered r w rows n same = absurd (n refl)

claim_busy :
    (now : Time) (id : Bytes) (r : IncidentRow)
    → r.incident.id ≡ id
    → is_waiting r.incident.state ≡ true
    → is_waiting (at_id id (claim now) r).incident.state ≡ false
unfolding claim
claim_busy now id r e w =
    let mine : has_id id r ≡ true = ap (λ (k : Bytes). list_eq k id) e ∙ list_eq_refl id in
    rw (mine, w) refl

-- The row of a claimed incident.
executing_row :
    (now : Time) (id : Bytes) (rows after : List IncidentRow) (n : ℤ)
    → Claimed now id rows after n
    → (r : IncidentRow) × (find_row id after ≡ some r) × (is_waiting r.incident.state ≡ false)
executing_row now id rows after n c =
    let moved =
      ap (find_row id) c.updated
      ∙ find_row-map (at_id id (claim now)) id rows
          (λ r. at_id-id (claim now) id r (claim-id now r))
      ∙ ap (map_row (at_id id (claim now))) c.found in
    (
      at_id id (claim now) c.row,
      moved,
      claim_busy now id c.row (find_row-id id rows c.row c.found) c.waiting,
    )

-- No later delivery of the message changes anything.
inert_at :
    (p : Pool) (e later : Surroundings) (msg : QueueMessage) (i : Incident)
    → Named e msg i
    → (rows : List IncidentRow) (r : IncidentRow) → find_row i.id rows ≡ some r
    → is_waiting r.incident.state ≡ false
    → later.decode msg.payload ≡ e.decode msg.payload
    → (after : World) → after.incidents ≡ rows
    → (handle p later msg after).0 ≡ after
inert_at p e later msg i nm rows r here busy d after same =
    let found : find_row (incident_named msg nm.id) after.incidents ≡ some r =
      ap (λ (k : Bytes). find_row k after.incidents) (sym nm.same)
      ∙ ap (find_row i.id) same
      ∙ here in
    handle_idle p later msg after nm.id nm.due r (d ∙ nm.decoded) found busy

-- A failure after the claim is final: after a delivery that fails, where no call took effect without an
-- answer, the incidents are as they were, or a later delivery of the message that decodes alike changes
-- nothing, whatever it meets.
pub handle_stranded :
    (p : Pool) (e later : Surroundings) (msg : QueueMessage) (w : World)
    → IsPlain e
    → later.decode msg.payload ≡ e.decode msg.payload
    → (handle p e msg w).1 ≡ failed
    → let after = (handle p e msg w).0 in
      (after.incidents ≡ w.incidents) ⊎ ((handle p later msg after).0 ≡ after)
handle_stranded p e later msg w plain d =
    handle-cases p e msg w
      (λ x. x.1 ≡ failed → (x.0.incidents ≡ w.incidents) ⊎ ((handle p later msg x.0).0 ≡ x.0))
      (λ a h. inl refl)
      (λ i payment n rows due nm at c a.
        let (r, here, busy) = executing_row e.db_now i.id w.incidents rows n c in
        let stuck = inert_at p e later msg i nm rows r here busy d in
        let claimed = record w { incidents = rows } in
        let ends =
          pursue-ends p e i rows (Keeps rows) (λ u same. record { kept = λ h. same })
            (λ k f r u keep same by_ending. concluded f (e.reply k) r u rows (plain k) same) payment
            n due claimed refl in
        (λ h. inr (stuck claimed refl), λ h. inr (stuck _ (ends.kept h))))
