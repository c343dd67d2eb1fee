-- ===== src/Worker/Presented.antt =====
-- internal/worker/worker.go: what one delivery of a message may present to the gateway.
use mathlib.Core.List.{append-nil}
use resilient_mesh_razorpayb.Base.{
  ◌≤◌, ◌≡◌, sym, ap, ◌∙◌, subst, true, some, List, [], ◌∷◌, ◌++◌, arith, All, ℤ, pos, ◌+ℤ◌, ◌≤ℤ◌,
}
use resilient_mesh_razorpayb.Text.{Bytes}
use resilient_mesh_razorpayb.Domain.Records.{SanitizedCommand}
use resilient_mesh_razorpayb.Domain.Times.{Time}
use resilient_mesh_razorpayb.Store.Incidents.{Incident, IncidentRow, find_row, is_waiting}
use resilient_mesh_razorpayb.Store.Rows.{Claimed}
use resilient_mesh_razorpayb.Worker.State.{
  World, Pool, Surroundings, QueueMessage, Event, audited, notified, presented, observed, learned,
}
use resilient_mesh_razorpayb.Worker.Handle.{handle}
use resilient_mesh_razorpayb.Worker.Steps.{Only, calls}
use resilient_mesh_razorpayb.Worker.Claims.{IsSound}
use resilient_mesh_razorpayb.Worker.Outcomes.{RowOf, handle-holds}

-- A command that may be presented, given the incidents before the delivery: one of them waits, and the
-- command carries its id and its amount, and its next attempt is within the maximum.
pub record Permitted (p : Pool) (rows : List IncidentRow) (cmd : SanitizedCommand) : Type 0 where
  pub row : IncidentRow
  pub found : find_row cmd.incident_id rows ≡ some row
  pub waiting : is_waiting row.incident.state ≡ true
  pub amount : cmd.immutable_amount_paisa ≡ row.incident.amount_paisa
  pub within : row.incident.attempt_count +ℤ pos 1 ≤ℤ p.gate.cfg.max_attempts

-- The events of a delivery: at most one call of the gateway, of a permitted command.
pub record Delivers (p : Pool) (w v : World) : Type 0 where
  pub events : List Event
  pub log_lem : v.log ≡ w.log ++ events
  pub once : calls events ≤ 1
  pub only : All (Only (Permitted p w.incidents)) events

IsSound-Permitted :
    (p : Pool) (now : Time) (i : Incident) (n : ℤ) (rows after : List IncidentRow)
    (cmd : SanitizedCommand)
    → RowOf i rows
    → Claimed now i.id rows after n
    → IsSound p i n cmd
    → Permitted p rows cmd
IsSound-Permitted p now i n rows after cmd (r, found, same) c s =
    let rows_agree : r ≡ c.row = cc in
    record {
      row = r;
      found = ap (λ (k : Bytes). find_row k rows) s.names ∙ found;
      waiting = rw rows_agree c.waiting;
      amount = s.amount ∙ ap (λ (x : Incident). x.amount_paisa) (sym same);
      within = rw rows_agree (subst (λ (t : ℤ). t ≤ℤ p.gate.cfg.max_attempts) c.number s.within);
    }

Only-map :
    (P Q : SanitizedCommand → Type 0) (events : List Event)
    → ((cmd : SanitizedCommand) → P cmd → Q cmd)
    → All (Only P) events
    → All (Only Q) events
Only-map P Q [] f h = tt
Only-map P Q (presented c ∷ xs) f (h, hs) = (f c h, Only-map P Q xs f hs)
Only-map P Q (audited k b ∷ xs) f (h, hs) = (tt, Only-map P Q xs f hs)
Only-map P Q (notified c ∷ xs) f (h, hs) = (tt, Only-map P Q xs f hs)
Only-map P Q (observed k b ∷ xs) f (h, hs) = (tt, Only-map P Q xs f hs)
Only-map P Q (learned k b ∷ xs) f (h, hs) = (tt, Only-map P Q xs f hs)

-- One delivery of a message, whatever fails around it, adds at most one call of the gateway to the log,
-- and only of a command on an incident that was received or scheduled before it, for the amount of its
-- row, where the attempt that the claim counts is within the gate's maximum.
pub handle-Delivers :
    (p : Pool) (e : Surroundings) (msg : QueueMessage) (w : World)
    → Delivers p w (handle p e msg w).0
handle-Delivers p e msg w =
    handle-holds p e w (Delivers p w)
      (record { events = []; log_lem = sym (append-nil w.log); once = omega arith; only = tt })
      (λ i n rows v at c st. record {
        events = st.events;
        log_lem = st.log_lem;
        once = st.few;
        only =
            Only-map (IsSound p i n) _ st.events
              (λ cmd. IsSound-Permitted p e.db_now i n w.incidents rows cmd at c) st.only;
      })
      msg
