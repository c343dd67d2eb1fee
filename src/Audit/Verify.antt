-- ===== src/Audit/Verify.antt =====
-- internal/audit/ledger.go: Verify, the walk over the whole chain. The rows that StreamAudit hands
-- over are a list; a database that fails instead is the walk's error, which has no verdict.
use resilient_mesh_razorpayb.Base.{
  ℕ, suc, ◌+◌, ◌≡◌, Bool, true, false, not, List, [], ◌∷◌, if◌then◌else◌, list_eq, ℤ, pos, ◌+ℤ◌,
  eqb_ℤ,
}
use resilient_mesh_razorpayb.Text.{Bytes}
use resilient_mesh_razorpayb.Audit.Entry.{AuditEntry, genesis_hash, compute_hash}

pub data Cause : Type 0 where
  no_cause hash_mismatch prev_hash_mismatch sequence_gap : Cause

-- VerifyReport without CheckedAt, the time of the check.
pub record VerifyReport : Type 0 where
  pub entries : ℕ
  pub valid : Bool
  pub break_at_seq : ℤ
  pub break_cause : Cause
  pub head_hash : Bytes

-- The state of the walk: the report so far, and what the next entry must be.
pub record Walk : Type 0 where
  pub report : VerifyReport
  pub prev_hash : Bytes
  pub want_seq : ℤ

unfoldable pub broken : Walk → ℤ → Cause → VerifyReport
broken w seq cause = record w.report { valid = false; break_at_seq = seq; break_cause = cause }
  where
    open w use {report}

unfoldable pub advance : Walk → AuditEntry → Walk
unfolding ◌+ℤ◌
advance w e = record {
  report = record report { entries = report.entries + 1; head_hash = e.hash };
  prev_hash = e.hash;
  want_seq = e.seq +ℤ pos 1;
}
  where
    open w use {report}

abbrev pub start : Walk
start = record {
  report = record {
    entries = 0;
    valid = true;
    break_at_seq = pos 0;
    break_cause = no_cause;
    head_hash = genesis_hash;
  };
  prev_hash = genesis_hash;
  want_seq = pos 1;
}

module _ (sha256 : Bytes → Bytes) where
  -- The callback on one entry, and the walk over the rest unless it breaks.
  unfoldable pub walk : Walk → List AuditEntry → VerifyReport
  unfolding broken advance
  walk w [] = w.report
  walk w (e ∷ es) =
      let rest = walk (advance w e) es in
      if not (eqb_ℤ e.seq w.want_seq)
      then broken w w.want_seq sequence_gap
      else if not (list_eq e.prev_hash w.prev_hash)
      then broken w e.seq prev_hash_mismatch
      else if not (list_eq e.hash (compute_hash sha256 e))
      then broken w e.seq hash_mismatch
      else rest

  -- Verify
  unfoldable pub verify : List AuditEntry → VerifyReport
  verify es = walk start es

  -- A well-formed chain: numbered in order, each entry linked to the one before and hashed.
  abbrev pub Chain : Bytes → ℕ → List AuditEntry → Type 0
  Chain prev n [] = Unit
  Chain prev n (e ∷ es) =
      (e.seq ≡ pos n)
      × (e.prev_hash ≡ prev)
      × (e.hash ≡ compute_hash sha256 e)
      × Chain e.hash (suc n) es

  -- The digest of the newest entry.
  abbrev pub head_after : Bytes → List AuditEntry → Bytes
  head_after prev [] = prev
  head_after prev (e ∷ es) = head_after e.hash es
