-- ===== src/Witnesses/Ledger.antt =====
-- internal/attest and internal/audit at concrete inputs, under a toy digest.
use resilient_mesh_razorpayb.Store.Ledger.{Database, detail_of, stored, link}
use resilient_mesh_razorpayb.Base.{
  ℕ, ◌≡◌, ◌⊎◌, ◌%◌, ◌+◌, ◌*◌, ◌==◌, Bool, if◌then◌else◌, true, false, refl, pos, ◌∷◌, [], get_elem?,
  some, ok, List, All, arith, zero, suc,
}
use resilient_mesh_razorpayb.Text.{Bytes, codes}
use resilient_mesh_razorpayb.Attest.Tree.{
  Proof, new, proof_for, root_hex, verify_proof, root, size, top, leaf_hash, node_hash, pair_up,
  grow, leaves_of, climb_step, climb,
}
use resilient_mesh_razorpayb.Attest.Levels.{GivesDigests}
use resilient_mesh_razorpayb.Attest.Completeness.{proof_for-verify_proof}
use resilient_mesh_razorpayb.Attest.Soundness.{verify_proof_sound}
use resilient_mesh_razorpayb.Attest.Texts.{
  leaf_texts, pair_texts, step_text, grow_texts, tree_texts, climb_texts, proof_texts, clashes,
  collide,
}
use resilient_mesh_razorpayb.Audit.Entry.{AuditEntry, genesis_hash, compute_hash}
use resilient_mesh_razorpayb.Audit.Verify.{Chain}
use resilient_mesh_razorpayb.Attest.Hex.{IsByte, encode_to_string, decode_string}
use resilient_mesh_razorpayb.Domain.Times.{truncate_microsecond}

blank : ℕ → Bytes
blank zero = []
blank (suc n) = 0 ∷ blank n

blank-IsByte : (n : ℕ) → All IsByte (blank n)
unfolding blank
blank-IsByte zero = tt
blank-IsByte (suc n) = (omega arith, blank-IsByte n)

roll : Bytes → ℕ
roll [] = 7
roll (c ∷ r) = (c + 31 * roll r) % 251

-- A rolling checksum in the first of 32 bytes.
toy_digest : Bytes → Bytes
unfolding blank roll
toy_digest x = roll x % 256 ∷ blank 31

toy_digest-GivesDigests : GivesDigests toy_digest
unfolding toy_digest blank roll
toy_digest-GivesDigests x = (refl, (omega arith, blank-IsByte 31))

abbrev ledger : List Bytes
ledger = codes "one" ∷ codes "three" ∷ codes "seven" ∷ []

proof_for-verify_proof_example :
    (p : Proof) × (proof_for (new toy_digest ledger) (pos 1) ≡ ok p)
    × (root_hex (new toy_digest ledger) ≡ ok p.root)
    × (verify_proof toy_digest (codes "three") p ≡ true)
proof_for-verify_proof_example =
    proof_for-verify_proof toy_digest ledger 1 (codes "three") toy_digest-GivesDigests refl

abbrev three_proof : Proof
three_proof =
    let one = leaf_hash toy_digest (codes "one") in
    let three = leaf_hash toy_digest (codes "three") in
    let seven = leaf_hash toy_digest (codes "seven") in
    record {
      leaf_index = pos 1;
      tree_size = pos 3;
      entry_hash = encode_to_string three;
      path =
          record { hash = encode_to_string one; right = false }
          ∷ record { hash = encode_to_string seven; right = true }
          ∷ [];
      root = encode_to_string (node_hash toy_digest (node_hash toy_digest one three) seven);
    }

three_named : root_hex (new toy_digest ledger) ≡ ok three_proof.root
unfolding root_hex root size top new leaf_hash node_hash pair_up grow leaves_of
three_named = refl

three_accepted : verify_proof toy_digest (codes "three") three_proof ≡ true
unfolding verify_proof climb climb_step leaf_hash node_hash toy_digest roll blank encode_to_string
    decode_string
three_accepted = refl

-- The toy digest keeps apart what is hashed for this tree and this proof.
three_apart :
    collide toy_digest
      (tree_texts toy_digest ledger)
      (proof_texts toy_digest (codes "three") three_proof)
    ≡ false
unfolding collide clashes tree_texts proof_texts leaf_texts pair_texts step_text grow_texts
    climb_texts climb_step leaf_hash node_hash pair_up leaves_of toy_digest roll blank decode_string
    encode_to_string
three_apart = refl

verify_proof_sound_example :
    ((i : ℕ) × (get_elem? ledger i ≡ some (codes "three")))
    ⊎ (collide toy_digest
          (tree_texts toy_digest ledger)
          (proof_texts toy_digest (codes "three") three_proof)
        ≡ true)
verify_proof_sound_example =
    verify_proof_sound toy_digest ledger (codes "three") three_proof toy_digest-GivesDigests
      three_named three_accepted

abbrev entry : ℕ → Bytes → Bytes → AuditEntry
entry n prev hash = record {
  seq = pos n;
  incident_id = codes "inc_1";
  kind = codes "gate";
  actor = codes "gatekeeper";
  detail = codes "{}";
  at = pos 1_000_000;
  prev_hash = prev;
  hash = hash;
}

abbrev genuine : AuditEntry
genuine = entry 1 genesis_hash (compute_hash toy_digest (entry 1 genesis_hash []))

abbrev forged : AuditEntry
forged = entry 3 [] []

abbrev database : Database
database = record { now = pos 1_000_000; answers = true }

-- A rendering without the spaces.
squeeze : Bytes → Bytes
squeeze [] = []
squeeze (c ∷ r) = let rest = squeeze r in if c == 32 then rest else c ∷ rest

abbrev any_json : Bytes → Bool
any_json d = true

-- An entry with nanoseconds in its time and a space in its detail.
abbrev spaced : AuditEntry
spaced = record (entry 0 [] []) { detail = codes "{ }"; at = pos 1_000_123 }

abbrev first_row : AuditEntry
first_row = link toy_digest any_json squeeze database (pos 0, genesis_hash) spaced

abbrev second_row : AuditEntry
second_row =
    link toy_digest any_json squeeze database (first_row.seq, first_row.hash) (entry 0 [] [])

-- The table after two appends, as it is read back.
abbrev rows : List AuditEntry
rows = stored squeeze first_row ∷ stored squeeze second_row ∷ []

first_row_kept : (first_row.detail ≡ codes "{}") × (first_row.at ≡ pos 1_000_000)
unfolding link squeeze detail_of truncate_microsecond
first_row_kept = (refl, refl)
