-- ===== src/Attest/Soundness.antt =====
-- internal/attest/merkle.go: what an accepted proof shows. SHA-256 is not assumed to be free of
-- collisions: where a proof lies, two of the texts that were hashed for the tree and for the proof have
-- one digest.
use resilient_mesh_razorpayb.Base.{
  ℕ, suc, ◌≡◌, refl, sym, ◌∙◌, subst, ◌⊎◌, inl, inr, Bool, true, false, Option, none, some, List,
  [], ◌∷◌, ◌++◌, arith, Option-cases, length, get_elem?, list_eq-eq, ok,
}
use resilient_mesh_razorpayb.Text.{Bytes}
use resilient_mesh_razorpayb.Attest.Hex.{encode_to_string, decode_string}
use resilient_mesh_razorpayb.Attest.Tree.{
  Digest, Step, Proof, root, root_hex, top, leaf_hash, node_hash, grow, leaves_of, new, climb_step,
  climb, verify_proof,
}
use resilient_mesh_razorpayb.Attest.Levels.{IsDigest, GivesDigests}
use resilient_mesh_razorpayb.Attest.Texts.{
  Hashed, Hashed-here, Hashed-there, Hashed-left, Hashed-right, leaf_texts, grow_texts, tree_texts,
  step_text, climb_texts, proof_texts, collide,
}
use resilient_mesh_razorpayb.Attest.Nodes.{
  Node, Node-IsDigest, children, leaf_entry, leaves_of-Node, top-Node, encode_injective,
}

module _ (sha256 : Bytes → Digest) where
  -- The sibling of a step, and the text that the step hashes with it.
  IsMade : Option Bytes → Bool → Digest → Digest → Digest → Type 0
  IsMade o right cur next sib =
      ((step_text o right cur ≡ 1 ∷ cur ++ sib) × (next ≡ node_hash sha256 cur sib))
      ⊎ ((step_text o right cur ≡ 1 ∷ sib ++ cur) × (next ≡ node_hash sha256 sib cur))

  climb_step-some :
      (o : Option Bytes) (right : Bool) (cur next : Digest)
      → climb_step sha256 o right cur ≡ some next
      → (sib : Digest) × (length sib ≡ 32) × IsMade o right cur next sib
  unfolding climb_step step_text IsMade
  climb_step-some none right cur next h = cc
  climb_step-some (some sib) true cur next h = (sib, ground arith, inl (refl, ground arith))
  climb_step-some (some sib) false cur next h = (sib, ground arith, inr (refl, ground arith))

  -- One step down, from the digest that was computed to the one it was computed from.
  child :
      (hs : List Digest) (ts us : List Bytes) (o : Option Bytes) (right : Bool)
      (cur sib next : Digest)
      → GivesDigests sha256
      → length cur ≡ 32
      → length sib ≡ 32
      → Hashed (step_text o right cur) us
      → IsMade o right cur next sib
      → Node sha256 hs ts next
      → Node sha256 hs ts cur ⊎ (collide sha256 ts us ≡ true)
  unfolding IsMade
  child hs ts us o right cur sib next s n m w (inl (t, e)) v =
      elim (children sha256 hs ts us next cur sib s n (subst (λ x. Hashed x us) t w) v e) [
        | inl (a, b) ↦ inl a
        | inr c ↦ inr c
      ]
  child hs ts us o right cur sib next s n m w (inr (t, e)) v =
      elim (children sha256 hs ts us next sib cur s m (subst (λ x. Hashed x us) t w) v e) [
        | inl (a, b) ↦ inl b
        | inr c ↦ inr c
      ]

  made-IsDigest :
      (o : Option Bytes) (right : Bool) (cur sib next : Digest)
      → GivesDigests sha256
      → IsMade o right cur next sib
      → IsDigest next
  unfolding node_hash IsMade
  made-IsDigest o right cur sib next s (inl (t, e)) = rw e (s (1 ∷ cur ++ sib))
  made-IsDigest o right cur sib next s (inr (t, e)) = rw e (s (1 ∷ sib ++ cur))

  climb_texts-step :
      (st : Step) (path : List Step) (cur next : Digest)
      → climb_step sha256 (decode_string st.hash) st.right cur ≡ some next
      → climb_texts sha256 (st ∷ path) cur
        ≡ step_text (decode_string st.hash) st.right cur ∷ climb_texts sha256 path next
  unfolding climb_texts
  climb_texts-step st path cur next e = rw (e, climb_texts) refl

  -- A path that ends at a node begins at a node, or there is a collision.
  climb-Node :
      (hs : List Digest) (ts us : List Bytes) (path : List Step) (cur r : Digest)
      → GivesDigests sha256
      → length cur ≡ 32
      → ((t : Bytes) → Hashed t (climb_texts sha256 path cur) → Hashed t us)
      → climb sha256 path cur ≡ some r
      → Node sha256 hs ts r
      → Node sha256 hs ts cur ⊎ (collide sha256 ts us ≡ true)
  unfolding climb
  climb-Node hs ts us [] cur r s n into h v = inl (subst (Node sha256 hs ts) (cc) v)
  climb-Node hs ts us (st ∷ path) cur r s n into h v =
      let o = decode_string st.hash in
      elim (Option-cases (climb_step sha256 o st.right cur)) [
        | inl e ↦ cc (rw (e, climb) at h)
        | inr (next, e) ↦
            let (sib, m, made) = climb_step-some o st.right cur next e in
            let rest : climb sha256 path next ≡ some r = rw (e, climb) at h in
            let x = step_text o st.right cur in
            let above = climb_texts sha256 path next in
            let all : (t : Bytes) → Hashed t (x ∷ above) → Hashed t us =
              subst (λ l. (t : Bytes) → Hashed t l → Hashed t us)
                (climb_texts-step st path cur next e) into in
            let digest = made-IsDigest o st.right cur sib next s made in
            elim (climb-Node hs ts us path next r s digest.0
              (λ t k. all t (Hashed-there t x above k)) rest v) [
                | inl w ↦
                    child hs ts us o st.right cur sib next s n m (all x (Hashed-here x above)) made
                      w
                | inr c ↦ inr c
              ]
      ]

  -- What an accepted proof has shown.
  verify_proof-climb :
      (e : Digest) (p : Proof)
      → verify_proof sha256 e p ≡ true
      → (r : Digest) × (climb sha256 p.path (leaf_hash sha256 e) ≡ some r)
        × (encode_to_string r ≡ p.root)
  unfolding verify_proof
  verify_proof-climb e p h = elim (Option-cases (climb sha256 p.path (leaf_hash sha256 e))) [
    | inl n ↦ absurd (ground arith)
    | inr (r, c) ↦ (r, c, ground (arith, list_eq-eq (encode_to_string r) p.root))
  ]

  climb-IsDigest :
      (path : List Step) (cur r : Digest)
      → GivesDigests sha256
      → IsDigest cur
      → climb sha256 path cur ≡ some r
      → IsDigest r
  unfolding climb node_hash
  climb-IsDigest [] cur r s n h = let e : cur ≡ r = cc in subst IsDigest e n
  climb-IsDigest (st ∷ path) cur r s n h =
      elim (Option-cases (climb_step sha256 (decode_string st.hash) st.right cur)) [
        | inl e ↦ cc (rw (e, climb) at h)
        | inr (next, e) ↦
            let rest : climb sha256 path next ≡ some r = rw (e, climb) at h in
            let (sib, m, made) = climb_step-some (decode_string st.hash) st.right cur next e in
            climb-IsDigest path next r s
              (made-IsDigest (decode_string st.hash) st.right cur sib next s made) rest
      ]

  -- The root that a proof names is a node of the tree.
  root_hex-Node :
      (hs : List Digest) (q : Bytes)
      → root_hex (new sha256 hs) ≡ ok q
      → (r : Digest) × Node sha256 hs (tree_texts sha256 hs) r × (encode_to_string r ≡ q)
  unfolding root_hex root new tree_texts
  root_hex-Node [] q h = absurd (ground arith)
  root_hex-Node (x ∷ xs) q h =
      let hs : List Digest = x ∷ xs in
      let l : List Digest = leaves_of sha256 hs in
      let n : ℕ = suc (length xs) in
      let below = leaf_texts hs in
      let above = grow_texts sha256 n l in
      elim (Option-cases (top (grow sha256 n l))) [
        | inl e ↦ absurd (ground arith)
        | inr (r, e) ↦ (
          r,
          top-Node sha256 hs (below ++ above) n l r (λ t k. Hashed-right t below above k)
              (leaves_of-Node sha256 hs (below ++ above) hs 0 (λ t k. Hashed-left t below above k)
                (λ i e k. subst (λ (j : ℕ). get_elem? hs j ≡ some e) (omega arith) k))
              e,
          ground arith,
        )
      ]

  -- An accepted proof is a proof of membership: for a hash with results of 32 bytes, where
  -- VerifyProof accepts a proof for a digest, and the proof names the root of the tree over some
  -- entries, the digest is one of these entries, or one of the texts that New hashes for this tree
  -- and a different one of those that VerifyProof hashes for this proof have the same hash.
  pub verify_proof_sound :
      (hs : List Digest) (e : Digest) (p : Proof)
      → GivesDigests sha256
      → root_hex (new sha256 hs) ≡ ok p.root
      → verify_proof sha256 e p ≡ true
      → ((i : ℕ) × (get_elem? hs i ≡ some e))
        ⊎ (collide sha256 (tree_texts sha256 hs) (proof_texts sha256 e p) ≡ true)
  unfolding proof_texts leaf_hash
  verify_proof_sound hs e p s named accepted =
      let ts = tree_texts sha256 hs in
      let above = climb_texts sha256 p.path (sha256 (0 ∷ e)) in
      let us = (0 ∷ e) ∷ above in
      let (r, path, named_so) = verify_proof-climb e p accepted in
      let (t, top_node, root_so) = root_hex-Node hs p.root named in
      let digest : IsDigest (leaf_hash sha256 e) = s (0 ∷ e) in
      let same : t ≡ r =
        encode_injective t r (Node-IsDigest sha256 hs ts t s top_node).1
          (climb-IsDigest p.path _ r s digest path).1 (root_so ∙ sym named_so) in
      elim (climb-Node hs ts us p.path (leaf_hash sha256 e) r s digest.0
        (λ x k. Hashed-there x (0 ∷ e) above k) path (subst (Node sha256 hs ts) same top_node)) [
          | inl w ↦
              leaf_entry sha256 hs ts us (leaf_hash sha256 e) e (Hashed-here (0 ∷ e) above) w refl
          | inr c ↦ inr c
        ]
