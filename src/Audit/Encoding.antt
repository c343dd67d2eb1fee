-- ===== src/Audit/Encoding.antt =====
-- internal/domain/records.go: what ComputeHash absorbs determines the entry.
use resilient_mesh_razorpayb.Base.{
  sym, ap, ◌∙◌, ℕ, ◌+◌, ◌*◌, ◌^◌, ◌≤◌, ◌<◌, ◌≡◌, sym, ap, ◌∙◌, ◌∷◌, length, ℤ, pos_part, neg_part,
}
use resilient_mesh_razorpayb.Text.{Bytes}
use resilient_mesh_razorpayb.Audit.Entry.{AuditEntry}

-- An int64.
abbrev pub IsInt64 : ℤ → Type 0
IsInt64 z = (pos_part z < 2 ^ 63) × (neg_part z ≤ 2 ^ 63)

-- A text of a length that fits.
abbrev pub Fits : Bytes → Type 0
Fits b = length b < 2 ^ 64

pub record IsSized (e : AuditEntry) : Type 0 where
  pub seq_int64 : IsInt64 e.seq
  pub at_int64 : IsInt64 e.at
  pub incident_fits : Fits e.incident_id
  pub kind_fits : Fits e.kind
  pub actor_fits : Fits e.actor
  pub detail_fits : Fits e.detail
  pub prev_fits : Fits e.prev_hash

-- The number that the first eight bytes of a text write.
eight : Bytes → ℕ
eight (a ∷ b ∷ c ∷ d ∷ e ∷ f ∷ g ∷ h ∷ r) =
    2 ^ 56 * a + 2 ^ 48 * b + 2 ^ 40 * c + 2 ^ 32 * d + 2 ^ 24 * e + 2 ^ 16 * f + 2 ^ 8 * g + h
eight _ = 0

-- What an entry commits to: all of it but the digest itself.
pub record SameContent (e f : AuditEntry) : Type 0 where
  pub same_seq : e.seq ≡ f.seq
  pub same_incident : e.incident_id ≡ f.incident_id
  pub same_kind : e.kind ≡ f.kind
  pub same_actor : e.actor ≡ f.actor
  pub same_detail : e.detail ≡ f.detail
  pub same_at : e.at ≡ f.at
  pub same_prev : e.prev_hash ≡ f.prev_hash
