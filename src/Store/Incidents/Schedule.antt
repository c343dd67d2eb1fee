-- ===== src/Store/Incidents/Schedule.antt =====
-- internal/store/schedule.go: the due times of incidents.
use resilient_mesh_razorpayb.Base.{
  ℕ, suc, Bool, false, not, ◌&&◌, none, some, List, [], ◌∷◌, map, if◌then◌else◌, is_some, take, any,
  list_eq, ℤ, pos, leb_ℤ, eqb_ℤ, Result, ok, err, ◌>>◌,
}
use resilient_mesh_razorpayb.Text.{Bytes}
use resilient_mesh_razorpayb.Domain.Times.{Time, zero_time}
use resilient_mesh_razorpayb.Outbox.Table.{bound_limit}
use resilient_mesh_razorpayb.Store.Checks.{
  StoreError, not_found, check_text, require, max_identifier_len,
}
use resilient_mesh_razorpayb.Store.Incidents.Table.{
  is_scheduled, IncidentRow, find_row, update_row, scheduled,
}

unfoldable pub with_schedule : Time → Time → IncidentRow → IncidentRow
with_schedule now at r = record {
  incident = record r.incident { state = scheduled; updated_at = now };
  scheduled_for = some at;
}

-- ScheduleIncident
unfoldable pub schedule_incident :
    Time → Bytes → Time → List IncidentRow → Result StoreError (List IncidentRow)
unfolding require
schedule_incident now id at rows = do
  require (check_text id 1 max_identifier_len)
  require (not (eqb_ℤ at zero_time))
  if is_some (find_row id rows)
      then ok (update_row id (with_schedule now at) rows)
      else err not_found

-- state = 'SCHEDULED' AND scheduled_for <= $1
unfoldable pub due_by : Time → IncidentRow → Bool
due_by now r =
    is_scheduled r.incident.state
    && (elim r.scheduled_for as (λ o. Bool) [ none ↦ false | some at ↦ leb_ℤ at now ])

abbrev due_time : IncidentRow → Time
due_time r = elim r.scheduled_for as (λ o. Time) [ none ↦ pos 0 | some at ↦ at ]

-- ORDER BY scheduled_for, an order that leaves equal times in any order.
unfoldable pub insert_due : IncidentRow → List IncidentRow → List IncidentRow
insert_due r [] = r ∷ []
insert_due r (s ∷ rs) =
    let later = insert_due r rs in if leb_ℤ (due_time r) (due_time s) then r ∷ s ∷ rs else s ∷ later

-- The due rows that no other transaction has locked.
unfoldable pub due_rows : Time → (Bytes → Bool) → List IncidentRow → List IncidentRow
unfolding due_by insert_due
due_rows at locked [] = []
due_rows at locked (r ∷ rs) =
    let rest = due_rows at locked rs in
    if due_by at r && not (locked r.incident.id) then insert_due r rest else rest

unfoldable pub unschedule : Time → List Bytes → IncidentRow → IncidentRow
unschedule now ids r =
    if any (λ i. list_eq r.incident.id i) ids
    then record { incident = record r.incident { updated_at = now }; scheduled_for = none }
    else r

abbrev pub max_list_limit : ℕ
max_list_limit = 500

abbrev pub ids_of : List IncidentRow → List Bytes
ids_of rows = map (λ (r : IncidentRow). r.incident.id) rows

-- ClaimDueIncidents: the rows it takes, and the table with their due times cleared.
unfoldable pub claim_due_incidents :
    Time → Time → ℤ → (Bytes → Bool) → List IncidentRow → List IncidentRow × List IncidentRow
unfolding due_rows unschedule
claim_due_incidents now at limit locked rows =
    let taken = take (bound_limit limit max_list_limit) (due_rows at locked rows) in
    (taken, map (unschedule now (ids_of taken)) rows)

-- DueIncidentCount
unfoldable pub due_incident_count : Time → List IncidentRow → ℕ
unfolding due_by
due_incident_count now [] = 0
due_incident_count now (r ∷ rs) =
    let rest = due_incident_count now rs in if due_by now r then suc rest else rest
