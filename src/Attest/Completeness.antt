-- ===== src/Attest/Completeness.antt =====
-- internal/attest/merkle.go: every proof that ProofFor cuts is accepted by VerifyProof.
use resilient_mesh_razorpayb.Base.{
  list_eq_refl, inr, inl, true, ltb, Bool-cases, ap, ok, pos, ◌<◌, ℕ, zero, suc, ◌/◌, ◌≤◌, ◌≡◌,
  refl, sym, ◌∙◌, some, List, [], ◌∷◌, arith, length, get_elem?, All,
}
use resilient_mesh_razorpayb.Attest.Hex.{encode_to_string}
use resilient_mesh_razorpayb.Attest.Tree.{
  Step, Tree, root_hex, verify_proof, size, leaf_at, new, proof_for, leaf_hash, Proof, leaves_of,
  Digest, root, path_from, top, pair_up, grow, climb,
}
use resilient_mesh_razorpayb.Attest.Levels.{
  length-leaves_of, IsDigest, GivesDigests, length-pair_up, pair_up-digests, path_from-grow,
  top-grow, climbs,
}
use resilient_mesh_razorpayb.Text.{Bytes}

-- What ProofFor answers for an index of the tree.
proof_for_lem :
    (t : Tree) (i : ℕ) (r leaf : Digest)
    → i < size t
    → root t ≡ ok r
    → leaf_at t i ≡ some leaf
    → proof_for t (pos i)
      ≡ ok (record {
        leaf_index = pos i;
        tree_size = pos (size t);
        entry_hash = encode_to_string leaf;
        path = path_from t.levels i;
        root = encode_to_string r;
      })
unfolding proof_for root_hex
proof_for_lem t i r leaf h e l = ground arith

root_lem : (t : Tree) (r : Digest) (n : ℕ) → size t ≡ suc n → top t.levels ≡ some r → root t ≡ ok r
unfolding root
root_lem t r n s e = ground arith

root_hex_lem : (t : Tree) (r : Digest) → root t ≡ ok r → root_hex t ≡ ok (encode_to_string r)
unfolding root_hex
root_hex_lem t r e = rw e

module _ (sha256 : Bytes → Digest) where
  -- A level of two nodes or more has another level above it.
  pub grow-more :
      (fuel : ℕ) (x y : Digest) (r : List Digest)
      → grow sha256 (suc fuel) (x ∷ y ∷ r)
        ≡ (x ∷ y ∷ r) ∷ grow sha256 fuel (pair_up sha256 (x ∷ y ∷ r))
  unfolding grow
  grow-more fuel x y r = ground arith

  -- The path from a node of a level climbs to the top of the tree over it.
  abbrev Reaches : ℕ → List Digest → ℕ → Digest → Type 0
  Reaches fuel xs i d =
      (r : Digest) × (top (grow sha256 fuel xs) ≡ some r)
      × (climb sha256 (path_from (grow sha256 fuel xs) i) d ≡ some r)

  -- A level of one node is the top.
  Reaches-one :
      (fuel : ℕ) (x d : Digest) (i : ℕ) → get_elem? (x ∷ []) i ≡ some d → Reaches fuel (x ∷ []) i d
  unfolding grow top path_from climb
  Reaches-one zero x d zero h = (x, refl, sym h)
  Reaches-one (suc fuel) x d zero h = (x, refl, sym h)
  Reaches-one fuel x d (suc i) h = cc

  -- With as many rounds as the level has nodes the path always arrives.
  reaches :
      (fuel : ℕ) (xs : List Digest) (i : ℕ) (d : Digest)
      → GivesDigests sha256
      → length xs ≤ suc fuel
      → All IsDigest xs
      → get_elem? xs i ≡ some d
      → Reaches fuel xs i d
  reaches fuel [] i d s n a h = cc
  reaches fuel (x ∷ []) i d s n a h = Reaches-one fuel x d i h
  reaches zero (x ∷ y ∷ r) i d s n a h = absurd (omega arith)
  reaches (suc fuel) (x ∷ y ∷ r) i d s n a h =
      let l : List Digest = x ∷ y ∷ r in
      let (parent, at, up) = climbs sha256 l i d a h in
      let fewer : length (pair_up sha256 l) ≤ suc fuel = omega (arith, length-pair_up sha256 l) in
      let (root, here, there) =
        reaches fuel (pair_up sha256 l) (i / 2) parent s fewer (pair_up-digests sha256 l s a) at in
      (
        root,
        rw (grow-more fuel x y r, top-grow sha256 l (pair_up sha256 l) fuel) here,
        rw (grow-more fuel x y r, path_from-grow sha256 l (pair_up sha256 l) fuel i)
            (up (path_from (grow sha256 fuel (pair_up sha256 l)) (i / 2)) ∙ there),
      )

  leaves_of-digests : (hs : List Digest) → GivesDigests sha256 → All IsDigest (leaves_of sha256 hs)
  unfolding leaves_of leaf_hash
  leaves_of-digests [] s = tt
  leaves_of-digests (h ∷ hs) s = (s (0 ∷ h), leaves_of-digests hs s)

  get_elem?-leaves_of :
      (hs : List Digest) (i : ℕ) (e : Digest)
      → get_elem? hs i ≡ some e
      → get_elem? (leaves_of sha256 hs) i ≡ some (leaf_hash sha256 e)
  unfolding leaves_of
  get_elem?-leaves_of [] i e h = cc
  get_elem?-leaves_of (x ∷ hs) zero e h = ap some (ap (leaf_hash sha256) (cc))
  get_elem?-leaves_of (x ∷ hs) (suc i) e h = get_elem?-leaves_of hs i e h

  get_elem?-lt : (hs : List Digest) (i : ℕ) (e : Digest) → get_elem? hs i ≡ some e → i < length hs
  get_elem?-lt [] i e h = cc
  get_elem?-lt (x ∷ hs) zero e h = omega arith
  get_elem?-lt (x ∷ hs) (suc i) e h = omega (arith, get_elem?-lt hs i e h)

  -- What VerifyProof answers where the path arrives.
  verify_proof_lem :
      (e r : Digest) (i n : ℕ) (steps : List Step)
      → i < n
      → climb sha256 steps (leaf_hash sha256 e) ≡ some r
      → verify_proof sha256 e (record {
        leaf_index = pos i;
        tree_size = pos n;
        entry_hash = encode_to_string (leaf_hash sha256 e);
        path = steps;
        root = encode_to_string r;
      })
        ≡ true
  unfolding verify_proof
  verify_proof_lem e r i n steps h c = ground (
    arith,
    list_eq_refl (encode_to_string (leaf_hash sha256 e)),
    list_eq_refl (encode_to_string r),
  )

  -- The first level that grows from a level is that level.
  pub grow-first :
      (fuel : ℕ) (xs : List Digest)
      → (above : List (List Digest)) × (grow sha256 fuel xs ≡ xs ∷ above)
  unfolding grow
  grow-first zero xs = ([], refl)
  grow-first (suc fuel) xs = elim (Bool-cases (ltb 1 (length xs))) [
    | inl more ↦ (grow sha256 fuel (pair_up sha256 xs), rw more)
    | inr one ↦ ([], rw one)
  ]

  size-new : (hs : List Digest) → size (new sha256 hs) ≡ length hs
  unfolding size new
  size-new [] = refl
  size-new (h ∷ hs) =
      let (above, e) = grow-first (length (h ∷ hs)) (leaves_of sha256 (h ∷ hs)) in
      rw e (length-leaves_of sha256 (h ∷ hs))

  leaf_at-new :
      (hs : List Digest) (i : ℕ) (e : Digest)
      → get_elem? hs i ≡ some e
      → leaf_at (new sha256 hs) i ≡ some (leaf_hash sha256 e)
  unfolding leaf_at new
  leaf_at-new [] i e h = cc
  leaf_at-new (x ∷ hs) i e h =
      let (above, shape) = grow-first (length (x ∷ hs)) (leaves_of sha256 (x ∷ hs)) in
      rw shape (get_elem?-leaves_of (x ∷ hs) i e h)

  -- The root that an index of the entries climbs to.
  root-new :
      (hs : List Digest) (i : ℕ) (e : Digest)
      → GivesDigests sha256
      → get_elem? hs i ≡ some e
      → (r : Digest) × (root (new sha256 hs) ≡ ok r)
        × (climb sha256 (path_from (new sha256 hs).levels i) (leaf_hash sha256 e) ≡ some r)
  unfolding new
  root-new [] i e s h = cc
  root-new (x ∷ hs) i e s h =
      let l : List Digest = x ∷ hs in
      let fits : length (leaves_of sha256 l) ≤ suc (length l) =
        omega (arith, length-leaves_of sha256 l) in
      let (r, here, there) =
        reaches (length l) (leaves_of sha256 l) i (leaf_hash sha256 e) s fits
          (leaves_of-digests l s) (get_elem?-leaves_of l i e h) in
      (r, root_lem (new sha256 l) r (length hs) (size-new l) here, there)

  -- Every entry of a ledger has a proof: for a hash with results of 32 bytes, ProofFor cuts one for
  -- each index of the tree over the entries, it carries the root of the tree, and VerifyProof
  -- accepts it for the entry at that index.
  pub proof_for-verify_proof :
      (hs : List Digest) (i : ℕ) (e : Digest)
      → GivesDigests sha256
      → get_elem? hs i ≡ some e
      → (p : Proof) × (proof_for (new sha256 hs) (pos i) ≡ ok p)
        × (root_hex (new sha256 hs) ≡ ok p.root)
        × (verify_proof sha256 e p ≡ true)
  proof_for-verify_proof hs i e s h =
      let (r, here, there) = root-new hs i e s h in
      let below : i < size (new sha256 hs) = rw (size-new hs) (get_elem?-lt hs i e h) in
      (
        record {
          leaf_index = pos i;
          tree_size = pos (size (new sha256 hs));
          entry_hash = encode_to_string (leaf_hash sha256 e);
          path = path_from (new sha256 hs).levels i;
          root = encode_to_string r;
        },
        proof_for_lem (new sha256 hs) i r (leaf_hash sha256 e) below here (leaf_at-new hs i e h),
        root_hex_lem (new sha256 hs) r here,
        verify_proof_lem e r i (size (new sha256 hs)) _ below there,
      )
