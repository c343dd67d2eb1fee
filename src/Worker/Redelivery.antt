-- ===== src/Worker/Redelivery.antt =====
-- internal/worker/worker.go: a delivery of an incident that does not wait.
use resilient_mesh_razorpayb.Base.{◌≡◌, refl, ap, ◌∙◌, subst, Bool, true, false, some}
use resilient_mesh_razorpayb.Text.{Bytes}
use resilient_mesh_razorpayb.Store.Incidents.{IncidentRow, find_row, is_waiting}
use resilient_mesh_razorpayb.Worker.State.{World, Pool, Surroundings, QueueMessage}
use resilient_mesh_razorpayb.Worker.Handle.{handle, incident_named}
use resilient_mesh_razorpayb.Worker.Outcomes.{handle-cases}

-- A delivery changes nothing unless its incident waits.
pub handle_idle :
    (p : Pool) (e : Surroundings) (msg : QueueMessage) (w : World) (id : Bytes) (due : Bool)
    (r : IncidentRow)
    → e.decode msg.payload ≡ some (id, due)
    → find_row (incident_named msg id) w.incidents ≡ some r
    → is_waiting r.incident.state ≡ false
    → (handle p e msg w).0 ≡ w
handle_idle p e msg w id due r d f idle =
    handle-cases p e msg w (λ x. x.0 ≡ w) (λ a. refl)
      (λ i payment n rows due' nm at c a.
        let names : nm.id ≡ id = cc in
        let named : i.id ≡ incident_named msg id = nm.same ∙ ap (incident_named msg) names in
        let here = subst (λ (k : Bytes). find_row k w.incidents ≡ some c.row) named c.found in
        let rows_agree : c.row ≡ r = cc in
        let waits : is_waiting r.incident.state ≡ true =
          subst (λ (x : IncidentRow). is_waiting x.incident.state ≡ true) rows_agree c.waiting in
        absurd cc)
