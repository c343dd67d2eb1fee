-- ===== src/Worker/Sweep.antt =====
-- internal/worker/worker.go: sweepDue, which returns deferred incidents to the queue when they are due.
use resilient_mesh_razorpayb.Base.{Bool, List, [], ◌∷◌, ◌++◌, map, if◌then◌else◌, ◌+ℤ◌}
use resilient_mesh_razorpayb.Text.{Bytes}
use resilient_mesh_razorpayb.Domain.Times.{Time}
use resilient_mesh_razorpayb.Outbox.Relay.{Reply, takes_effect, answered}
use resilient_mesh_razorpayb.Store.Incidents.{IncidentRow, claim_due_incidents, schedule_incident}
use resilient_mesh_razorpayb.Worker.Execute.{effect_of}
use resilient_mesh_razorpayb.Worker.State.{World, Pool}

-- What is around a sweep: the queue and the store may fail on every incident.
pub record SweepTime : Type 0 where
  pub now : Time
  pub db_now : Time
  pub locked : Bytes → Bool
  pub claiming : Reply
  pub publishing : Bytes → Reply
  pub rearming : Bytes → Reply

-- The world, and the ids of the incidents that were published as due.
pub record Sweep : Type 0 where
  pub world : World
  pub published : List Bytes

-- One incident of the batch.
unfoldable pub requeue : Pool → SweepTime → Bytes → Sweep → Sweep
requeue p e id s =
    let again =
      effect_of (e.rearming id)
        (schedule_incident e.db_now id (e.now +ℤ p.cfg.sweep_interval) s.world.incidents)
        s.world.incidents in
    let sent = if takes_effect (e.publishing id) then s.published ++ id ∷ [] else s.published in
    if answered (e.publishing id)
    then record s { published = sent }
    else record { world = record s.world { incidents = again }; published = sent }

unfoldable pub requeue_all : Pool → SweepTime → List Bytes → Sweep → Sweep
unfolding requeue
requeue_all p e [] s = s
requeue_all p e (id ∷ ids) s = requeue_all p e ids (requeue p e id s)

-- Pool.sweepDue
unfoldable pub sweep_due : Pool → SweepTime → World → Sweep
unfolding requeue_all
sweep_due p e w =
    let (taken, rows) = claim_due_incidents e.db_now e.now p.cfg.sweep_batch e.locked w.incidents in
    let swept : Sweep = record { world = record w { incidents = rows }; published = [] } in
    let untouched : Sweep = record { world = w; published = [] } in
    if answered e.claiming
    then requeue_all p e (map (λ (r : IncidentRow). r.incident.id) taken) swept
    else if takes_effect e.claiming
    then swept
    else untouched
