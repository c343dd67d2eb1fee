-- ===== src/Store/Ledger.antt =====
-- internal/store/postgres.go: appendAudit in its transaction, which holds the advisory lock that makes
-- the read of the head and the insert one step. The table is a list of rows in the order of their
-- numbers, as scanAuditEntry reads them back: a TIMESTAMPTZ keeps microseconds, and a JSONB is rendered
-- anew. The validity of a JSON text and its rendering by jsonb are parameters.
use resilient_mesh_razorpayb.Base.{
  ◌≡◌, Bool, true, ◌&&◌, List, [], ◌∷◌, ◌++◌, if◌then◌else◌, ℤ, pos, ◌+ℤ◌, eqb_ℤ, Result, ok, err,
  ◌>>◌,
}
use resilient_mesh_razorpayb.Text.{Bytes, is_empty, codes}
use resilient_mesh_razorpayb.Domain.Times.{Time, zero_time, truncate_microsecond}
use resilient_mesh_razorpayb.Audit.Entry.{AuditEntry, genesis_hash, compute_hash}
use resilient_mesh_razorpayb.Store.Checks.{
  StoreError, unavailable, check_text, check_json, require, max_kind_len, max_actor_len,
  max_identifier_len, max_audit_detail_bytes,
}

-- What the database is to an append: whether every statement and the commit succeed, and the clock.
pub record Database : Type 0 where
  pub now : Time
  pub answers : Bool

-- The number and the digest of the newest entry, or those of the genesis.
unfoldable pub head_of : ℤ → Bytes → List AuditEntry → ℤ × Bytes
head_of seq hash [] = (seq, hash)
head_of seq hash (e ∷ es) = head_of e.seq e.hash es

-- "{}" for an entry without a detail.
unfoldable pub detail_of : AuditEntry → Bytes
detail_of e = if is_empty e.detail then codes "{}" else e.detail

-- The checks of appendAudit.
unfoldable pub admissible : (Bytes → Bool) → AuditEntry → Bool
unfolding detail_of
admissible json_valid e =
    check_text e.kind 1 max_kind_len
    && check_text e.actor 1 max_actor_len
    && check_text e.incident_id 0 max_identifier_len
    && check_json json_valid (detail_of e) max_audit_detail_bytes true

-- What jsonb renders of a document stays as it is when it is stored and rendered again.
abbrev pub IsRendering : (Bytes → Bool) → (Bytes → Bytes) → Type 0
IsRendering json_valid canonical =
    (d : Bytes) → json_valid d ≡ true → canonical (canonical d) ≡ canonical d

-- A row, as it is read back after its insert.
unfoldable pub stored : (Bytes → Bytes) → AuditEntry → AuditEntry
stored canonical e = record e { detail = canonical e.detail; at = truncate_microsecond e.at }

module _ (sha256 : Bytes → Bytes) (json_valid : Bytes → Bool) (canonical : Bytes → Bytes) where
  -- The entry with its place in the chain.
  unfoldable pub link : Database → ℤ × Bytes → AuditEntry → AuditEntry
  unfolding detail_of
  link db (seq, prev) e =
      let placed = record e {
        seq = seq +ℤ pos 1;
        prev_hash = prev;
        detail = canonical (detail_of e);
        at = truncate_microsecond (if eqb_ℤ e.at zero_time then db.now else e.at);
      } in
      record placed { hash = compute_hash sha256 placed }

  -- AppendAuditRow: the entry and the table after it.
  unfoldable pub append_audit_row :
      Database → AuditEntry → List AuditEntry → Result StoreError (AuditEntry × List AuditEntry)
  unfolding require
  append_audit_row db e ledger = do
    require (admissible json_valid e)
    let entry = link db (head_of (pos 0) genesis_hash ledger) e
    if db.answers then ok (entry, ledger ++ stored canonical entry ∷ []) else err unavailable

  -- The ledger after a number of appends, each of which may fail.
  pub data Appended : List AuditEntry → Type 0 where
    nothing : Appended []
    appended :
        {ledger : List AuditEntry} (db : Database) (e entry : AuditEntry) (after : List AuditEntry)
        → Appended ledger
        → append_audit_row db e ledger ≡ ok (entry, after)
        → Appended after
