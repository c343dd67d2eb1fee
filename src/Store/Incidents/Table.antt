-- ===== src/Store/Incidents/Table.antt =====
-- internal/store/postgres.go: the incidents table and the statements that read, insert, claim and move
-- an incident. `now()` is an argument, and the states are those of internal/domain/records.go.
use resilient_mesh_razorpayb.Base.{
  ℕ, ◌^◌, Bool, true, false, not, ◌&&◌, ◌||◌, Option, none, some, List, [], ◌∷◌, ◌++◌, map,
  if◌then◌else◌, is_some, any, list_eq, ℤ, pos, ◌+ℤ◌, ltb_ℤ, eqb_ℤ, Result, ok, err, ◌>>=◌, ◌>>◌,
}
use resilient_mesh_razorpayb.Text.{Bytes}
use resilient_mesh_razorpayb.Domain.Times.{Time, zero_time}
use resilient_mesh_razorpayb.Store.Checks.{
  StoreError, not_found, conflict, check_text, check_json, require, max_identifier_len,
}

pub data IncidentState : Type 0 where
  received diagnosed gated scheduled executing recovered abandoned abstained : IncidentState

-- IncidentState.Terminal
abbrev pub is_terminal : IncidentState → Bool
is_terminal recovered = true
is_terminal abandoned = true
is_terminal abstained = true
is_terminal _ = false

abbrev pub is_scheduled : IncidentState → Bool
is_scheduled scheduled = true
is_scheduled _ = false

-- state IN ('RECEIVED', 'SCHEDULED')
abbrev pub is_waiting : IncidentState → Bool
is_waiting received = true
is_waiting scheduled = true
is_waiting _ = false

pub record Incident : Type 0 where
  pub id : Bytes
  pub payment_id : Bytes
  pub order_id : Bytes
  pub subscription_id : Bytes
  pub event_id : Bytes
  pub amount_paisa : ℤ
  pub currency : Bytes
  pub method : Bytes
  pub issuer_key : Bytes
  pub error_code : Bytes
  pub state : IncidentState
  pub attempt_count : ℤ
  pub is_recurring : Bool
  pub raw_payload : Bytes
  pub received_at : Time
  pub updated_at : Time

-- A row: the incident, and its due time.
pub record IncidentRow : Type 0 where
  pub incident : Incident
  pub scheduled_for : Option Time

abbrev pub has_id : Bytes → IncidentRow → Bool
has_id id r = list_eq r.incident.id id

-- SELECT ... WHERE id = $1
unfoldable pub find_row : Bytes → List IncidentRow → Option IncidentRow
find_row id [] = none
find_row id (r ∷ rs) = if has_id id r then some r else find_row id rs

-- UPDATE ... WHERE id = $1
abbrev pub at_id : Bytes → (IncidentRow → IncidentRow) → IncidentRow → IncidentRow
at_id id f r = if has_id id r then f r else r

abbrev pub update_row : Bytes → (IncidentRow → IncidentRow) → List IncidentRow → List IncidentRow
update_row id f rows = map (at_id id f) rows

-- GetIncident
unfoldable pub get_incident : Bytes → List IncidentRow → Result StoreError Incident
unfolding require
get_incident id rows = do
  require (check_text id 1 max_identifier_len)
  elim (find_row id rows) [ none ↦ err not_found | some r ↦ ok r.incident ]

abbrev pub max_currency_len : ℕ
max_currency_len = 8

abbrev max_method_len : ℕ
max_method_len = 32

abbrev pub max_error_code_len : ℕ
max_error_code_len = 64

abbrev max_raw_payload_bytes : ℕ
max_raw_payload_bytes = 2 ^ 21

-- validateIncident, true where it accepts.
unfoldable pub validate_incident : (Bytes → Bool) → Incident → Bool
validate_incident json_valid i =
    check_text i.id 1 max_identifier_len
    && check_text i.payment_id 1 max_identifier_len
    && check_text i.event_id 1 max_identifier_len
    && check_text i.order_id 0 max_identifier_len
    && check_text i.subscription_id 0 max_identifier_len
    && check_text i.currency 1 max_currency_len
    && check_text i.method 0 max_method_len
    && check_text i.issuer_key 0 max_identifier_len
    && check_text i.error_code 0 max_error_code_len
    && not (ltb_ℤ i.amount_paisa (pos 0))
    && not (ltb_ℤ i.attempt_count (pos 0))
    && check_json json_valid i.raw_payload max_raw_payload_bytes true

-- The primary key, and the unique index on the event.
abbrev pub clashes : Incident → IncidentRow → Bool
clashes i r = list_eq r.incident.id i.id || list_eq r.incident.event_id i.event_id

abbrev pub or_now : Time → Time → Time
or_now now t = if eqb_ℤ t zero_time then now else t

-- InsertIncident
unfoldable pub insert_incident :
    (Bytes → Bool) → Time → Incident → List IncidentRow → Result StoreError (List IncidentRow)
unfolding require
insert_incident json_valid now i rows = do
  require (validate_incident json_valid i)
  let stamped = record i {
    received_at = or_now now i.received_at;
    updated_at = or_now now i.updated_at;
  }
  if any (clashes i) rows
      then err conflict
      else ok (rows ++ (record { incident = stamped; scheduled_for = none }) ∷ [])

unfoldable pub with_state : Time → IncidentState → IncidentRow → IncidentRow
with_state now s r = record r { incident = record r.incident { state = s; updated_at = now } }

-- UpdateIncidentState
unfoldable pub update_incident_state :
    Time → Bytes → IncidentState → List IncidentRow → Result StoreError (List IncidentRow)
unfolding require
update_incident_state now id s rows = do
  require (check_text id 1 max_identifier_len)
  if is_some (find_row id rows) then ok (update_row id (with_state now s) rows) else err not_found

unfoldable pub claim : Time → IncidentRow → IncidentRow
claim now r =
    if is_waiting r.incident.state
    then record r {
      incident = record r.incident {
        attempt_count = r.incident.attempt_count +ℤ pos 1;
        state = executing;
        updated_at = now;
      };
    }
    else r

-- The attempt number of a claim, where the row can be claimed.
unfoldable pub claim_number : Option IncidentRow → Result StoreError ℤ
claim_number none = err conflict
claim_number (some r) =
    if is_waiting r.incident.state then ok (r.incident.attempt_count +ℤ pos 1) else err conflict

-- IncrementIncidentAttempts
unfoldable pub increment_incident_attempts :
    Time → Bytes → List IncidentRow → Result StoreError (ℤ × List IncidentRow)
unfolding require
increment_incident_attempts now id rows = do
  require (check_text id 1 max_identifier_len)
  n ← claim_number (find_row id rows)
  ok (n, update_row id (claim now) rows)
