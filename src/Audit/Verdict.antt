-- ===== src/Audit/Verdict.antt =====
-- internal/audit/ledger.go: what the verdict of Verify means.
use resilient_mesh_razorpayb.Base.{ℕ, ◌≡◌, Bool, true, ◌&&◌, List, [], ◌∷◌, list_eq, pos, eqb_ℤ}
use resilient_mesh_razorpayb.Text.{Bytes}
use resilient_mesh_razorpayb.Audit.Entry.{AuditEntry, compute_hash}
use resilient_mesh_razorpayb.Audit.Verify.{Walk, advance}

module _ (sha256 : Bytes → Bytes) where
  -- A walk that has found no break so far, and expects the entry numbered `n`.
  abbrev Expects : Walk → Bytes → ℕ → Type 0
  Expects w prev n =
      (w.report.valid ≡ true)
      × (w.prev_hash ≡ prev)
      × (w.want_seq ≡ pos n)
      × (w.report.head_hash ≡ prev)

  abbrev passes : Walk → AuditEntry → Bool
  passes w e =
      eqb_ℤ e.seq w.want_seq
      && (list_eq e.prev_hash w.prev_hash && list_eq e.hash (compute_hash sha256 e))

  -- The walk after a chain that it has found no break in.
  walk_on : Walk → List AuditEntry → Walk
  walk_on w [] = w
  walk_on w (e ∷ es) = walk_on (advance w e) es
