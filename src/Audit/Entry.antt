-- ===== src/Audit/Entry.antt =====
-- internal/domain/records.go: an entry of the ledger and its digest. SHA-256 is a parameter.
use resilient_mesh_razorpayb.Base.{
  ℕ, zero, suc, ◌-◌, ◌/◌, ◌%◌, ◌^◌, Bool, false, not, [], ◌∷◌, ◌++◌, if◌then◌else◌, length, list_eq,
  ℤ, pos, negsuc,
}
use resilient_mesh_razorpayb.Text.{Bytes}
use resilient_mesh_razorpayb.Attest.Hex.{encode_to_string}
use resilient_mesh_razorpayb.Domain.Times.{Time}

pub record AuditEntry : Type 0 where
  pub seq : ℤ
  pub incident_id : Bytes
  pub kind : Bytes
  pub actor : Bytes
  pub detail : Bytes
  pub at : Time
  pub prev_hash : Bytes
  pub hash : Bytes

zeros : ℕ → Bytes
zeros zero = []
zeros (suc n) = b'0' ∷ zeros n

-- GenesisHash
unfoldable pub genesis_hash : Bytes
unfolding zeros
genesis_hash = zeros 64

-- uint64(v) for an int64.
unfoldable pub to_uint64 : ℤ → ℕ
to_uint64 (pos n) = n % 2 ^ 64
to_uint64 (negsuc n) = 2 ^ 64 - 1 - n % 2 ^ 64

-- absorbUint: eight bytes, the most significant first.
unfoldable pub absorb_uint : ℕ → Bytes
absorb_uint v =
    (v / 2 ^ 56 % 256)
    ∷ (v / 2 ^ 48 % 256)
    ∷ (v / 2 ^ 40 % 256)
    ∷ (v / 2 ^ 32 % 256)
    ∷ (v / 2 ^ 24 % 256)
    ∷ (v / 2 ^ 16 % 256)
    ∷ (v / 2 ^ 8 % 256)
    ∷ (v % 256)
    ∷ []

-- absorb: the length, then the bytes.
unfoldable pub absorb : Bytes → Bytes
absorb b = absorb_uint (length b) ++ b

-- What ComputeHash writes to the digest, in order.
unfoldable pub preimage : AuditEntry → Bytes
preimage e =
    absorb_uint (to_uint64 e.seq)
    ++ (absorb e.incident_id
        ++ (absorb e.kind
            ++ (absorb e.actor
                ++ (absorb e.detail ++ (absorb_uint (to_uint64 e.at) ++ absorb e.prev_hash)))))

module _ (sha256 : Bytes → Bytes) where
  -- AuditEntry.ComputeHash
  unfoldable pub compute_hash : AuditEntry → Bytes
  compute_hash e = encode_to_string (sha256 (preimage e))

  -- AuditEntry.VerifyAgainst
  pub verify_against : AuditEntry → Bytes → Bool
  verify_against e prev =
      if not (list_eq e.prev_hash prev) then false else list_eq e.hash (compute_hash e)
