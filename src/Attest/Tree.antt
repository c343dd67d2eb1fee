-- ===== src/Attest/Tree.antt =====
-- internal/attest/merkle.go: the tree, the cutting of a proof and its check. SHA-256 is a parameter:
-- a function from texts to digests.
use resilient_mesh_razorpayb.Base.{
  ℕ, zero, suc, ◌+◌, ◌-◌, ◌/◌, ◌%◌, Bool, false, not, ◌||◌, Option, none, some, List, [], ◌∷◌, ◌++◌,
  ltb, ◌==◌, if◌then◌else◌, length, get_elem?, list_eq, ℤ, pos, pos_part, ltb_ℤ, leb_ℤ, Result, ok,
  err, ◌>>=◌,
}
use resilient_mesh_razorpayb.Text.{Bytes}
use resilient_mesh_razorpayb.Attest.Hex.{encode_to_string, decode_string}

abbrev pub Digest : Type 0
Digest = Bytes

pub data AttestError : Type 0 where
  empty_tree index_out_of_range not_hex wrong_length : AttestError

-- One sibling on the way from a leaf to the root; its hash is hexadecimal text.
pub record Step : Type 0 where
  pub hash : Bytes
  pub right : Bool

pub record Proof : Type 0 where
  pub leaf_index : ℤ
  pub tree_size : ℤ
  pub entry_hash : Bytes
  pub path : List Step
  pub root : Bytes

-- levels[0] is the leaf level.
pub record Tree : Type 0 where
  pub levels : List (List Digest)

-- Tree.Size
unfoldable pub size : Tree → ℕ
size t = elim t.levels [ [] ↦ 0 | leaves ∷ above ↦ length leaves ]

unfoldable pub top : List (List Digest) → Option Digest
top [] = none
top (l ∷ []) = get_elem? l 0
top (l ∷ m ∷ ls) = top (m ∷ ls)

root_or_empty : Option Digest → Result AttestError Digest
root_or_empty none = err empty_tree
root_or_empty (some r) = ok r

-- Tree.Root
unfoldable pub root : Tree → Result AttestError Digest
unfolding top root_or_empty
root t = if size t == 0 then err empty_tree else root_or_empty (top t.levels)

-- Tree.RootHex
unfoldable pub root_hex : Tree → Result AttestError Bytes
root_hex t = do r ← root t; ok (encode_to_string r)

-- idx ^ 1
abbrev pub sibling_of : ℕ → ℕ
sibling_of idx = if idx % 2 == 0 then idx + 1 else idx - 1

unfoldable pub step_of : Option Digest → Bool → List Step
step_of none right = []
step_of (some s) right = record { hash = encode_to_string s; right = right } ∷ []

-- The step of one level; a promoted final node has none.
unfoldable pub level_step : List Digest → ℕ → List Step
level_step cur idx = step_of (get_elem? cur (sibling_of idx)) (ltb idx (sibling_of idx))

-- The loop of ProofFor, over the levels below the top.
unfoldable pub path_from : List (List Digest) → ℕ → List Step
unfolding level_step
path_from [] idx = []
path_from (l ∷ []) idx = []
path_from (l ∷ m ∷ ls) idx = level_step l idx ++ path_from (m ∷ ls) (idx / 2)

unfoldable pub leaf_at : Tree → ℕ → Option Digest
leaf_at t i = elim t.levels [ [] ↦ none | leaves ∷ above ↦ get_elem? leaves i ]

cut_proof : Tree → ℕ → Bytes → Option Digest → Result AttestError Proof
cut_proof t i r none = err index_out_of_range
cut_proof t i r (some leaf) = ok (record {
  leaf_index = pos i;
  tree_size = pos (size t);
  entry_hash = encode_to_string leaf;
  path = path_from t.levels i;
  root = r;
})

-- Tree.ProofFor
unfoldable pub proof_for : Tree → ℤ → Result AttestError Proof
unfolding cut_proof
proof_for t index =
    if size t == 0
    then err empty_tree
    else if ltb_ℤ index (pos 0) || leb_ℤ (pos (size t)) index
    then err index_out_of_range
    else (do r ← root_hex t; cut_proof t (pos_part index) r (leaf_at t (pos_part index)))

-- ParseHash
pub parse_hash : Bytes → Result AttestError Digest
parse_hash s = elim (decode_string s) [
  | none ↦ err not_hex
  | some raw ↦ if length raw == 32 then ok raw else err wrong_length
]

module _ (sha256 : Bytes → Digest) where
  -- LeafHash: the prefix 0x00.
  unfoldable pub leaf_hash : Digest → Digest
  leaf_hash entry = sha256 (0 ∷ entry)

  -- nodeHash: the prefix 0x01.
  unfoldable pub node_hash : Digest → Digest → Digest
  node_hash left right = sha256 (1 ∷ left ++ right)

  -- One round of the loop of New: the next level.
  unfoldable pub pair_up : List Digest → List Digest
  pair_up [] = []
  pair_up (x ∷ []) = x ∷ []
  pair_up (x ∷ y ∷ r) = node_hash x y ∷ pair_up r

  -- The loop of New, with fuel: the levels from `cur` to the top.
  unfoldable pub grow : ℕ → List Digest → List (List Digest)
  unfolding pair_up
  grow zero cur = cur ∷ []
  grow (suc fuel) cur =
      let above = grow fuel (pair_up cur) in if ltb 1 (length cur) then cur ∷ above else cur ∷ []

  unfoldable pub leaves_of : List Digest → List Digest
  leaves_of [] = []
  leaves_of (h ∷ hs) = leaf_hash h ∷ leaves_of hs

  -- New; as many rounds as there are leaves are enough.
  unfoldable pub new : List Digest → Tree
  unfolding grow leaves_of
  new [] = record { levels = [] }
  new (h ∷ hs) = record { levels = grow (length (h ∷ hs)) (leaves_of (h ∷ hs)) }

  -- One step of VerifyProof, from the digest so far.
  unfoldable pub climb_step : Option Bytes → Bool → Digest → Option Digest
  climb_step none right cur = none
  climb_step (some sib) right cur =
      if length sib == 32
      then some (if right then node_hash cur sib else node_hash sib cur)
      else none

  -- The loop of VerifyProof.
  unfoldable pub climb : List Step → Digest → Option Digest
  unfolding climb_step
  climb [] cur = some cur
  climb (s ∷ ss) cur = elim (climb_step (decode_string s.hash) s.right cur) [
    | none ↦ none
    | some next ↦ climb ss next
  ]

  ends_at : Bytes → Option Digest → Bool
  ends_at r none = false
  ends_at r (some d) = list_eq (encode_to_string d) r

  -- VerifyProof
  unfoldable pub verify_proof : Digest → Proof → Bool
  unfolding ends_at
  verify_proof entry p =
      if leb_ℤ p.tree_size (pos 0) || ltb_ℤ p.leaf_index (pos 0) || leb_ℤ p.tree_size p.leaf_index
      then false
      else if not (list_eq (encode_to_string (leaf_hash entry)) p.entry_hash)
      then false
      else ends_at p.root (climb p.path (leaf_hash entry))
