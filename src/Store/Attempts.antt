-- ===== src/Store/Attempts.antt =====
-- internal/store/postgres.go: the attempts table. The primary key that the database draws and the
-- timestamps that default to its clock are left out of the row.
use resilient_mesh_razorpayb.Base.{
  is_some, Bool, not, ◌&&◌, ◌||◌, List, [], ◌∷◌, ◌++◌, if◌then◌else◌, any, list_eq, ℤ, pos, ltb_ℤ,
  eqb_ℤ, Result, ok, ◌>>◌,
}
use resilient_mesh_razorpayb.Text.{Bytes}
use resilient_mesh_razorpayb.Domain.Vocabulary.{Rail, Presentation, Action}
use resilient_mesh_razorpayb.Domain.Times.{Time}
use resilient_mesh_razorpayb.Store.Checks.{StoreError, require, check_text, max_identifier_len}
use resilient_mesh_razorpayb.Store.Incidents.{IncidentRow, find_row, or_now, max_error_code_len}

pub record AttemptRecord : Type 0 where
  pub incident_id : Bytes
  pub attempt_number : ℤ
  pub action : Action
  pub rail : Rail
  pub presentation : Presentation
  pub amount_paisa : ℤ
  pub succeeded : Bool
  pub gateway_fee_paisa : ℤ
  pub friction_paisa : ℤ
  pub error_code : Bytes
  pub started_at : Time
  pub completed_at : Time

-- The checks of RecordAttempt; an action, a rail and a presentation are known ones here.
unfoldable pub recordable : AttemptRecord → Bool
recordable a =
    check_text a.incident_id 1 max_identifier_len
    && check_text a.error_code 0 max_error_code_len
    && not (ltb_ℤ a.attempt_number (pos 1))
    && not (
        ltb_ℤ a.amount_paisa (pos 0)
        || ltb_ℤ a.gateway_fee_paisa (pos 0)
        || ltb_ℤ a.friction_paisa (pos 0))

abbrev pub same_attempt : AttemptRecord → AttemptRecord → Bool
same_attempt a b = list_eq a.incident_id b.incident_id && eqb_ℤ a.attempt_number b.attempt_number

-- COALESCE of the times of an attempt with the clock of the database.
abbrev stamped : Time → AttemptRecord → AttemptRecord
stamped now a = record a {
  started_at = or_now now a.started_at;
  completed_at = or_now now a.completed_at;
}

-- RecordAttempt: a second record of the same attempt changes nothing, and an attempt on no incident is
-- refused by the foreign key.
unfoldable pub record_attempt :
    Time
    → List IncidentRow
    → AttemptRecord
    → List AttemptRecord
    → Result StoreError (List AttemptRecord)
unfolding require
record_attempt now incidents a rows = do
  require (recordable a)
  require (is_some (find_row a.incident_id incidents))
  if any (same_attempt a) rows then ok rows else ok (rows ++ stamped now a ∷ [])
