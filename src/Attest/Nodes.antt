-- ===== src/Attest/Nodes.antt =====
-- internal/attest/merkle.go: the digests that are nodes of the tree over some entries. SHA-256 is not
-- assumed to be free of collisions: where two texts that were hashed share a digest, that is a
-- collision.
use resilient_mesh_razorpayb.Base.{
  append_injective, ℕ, zero, suc, ◌+◌, ◌≡◌, refl, sym, ap, ◌∙◌, subst, ◌⊎◌, inl, inr, true, some,
  List, [], ◌∷◌, ◌++◌, arith, length, get_elem?, All,
}
use resilient_mesh_razorpayb.Text.{Bytes}
use resilient_mesh_razorpayb.Attest.Hex.{
  encode_to_string, decode_string, IsByte, decode_string-encode,
}
use resilient_mesh_razorpayb.Attest.Tree.{
  Digest, top, leaf_hash, node_hash, pair_up, grow, leaves_of,
}
use resilient_mesh_razorpayb.Attest.Levels.{top-grow, IsDigest, GivesDigests}
use resilient_mesh_razorpayb.Attest.Completeness.{grow-more}
use resilient_mesh_razorpayb.Attest.Texts.{
  Hashed, Hashed-here, Hashed-there, Hashed-left, Hashed-right, leaf_texts, pair_texts, grow_texts,
  collide, collide_intro, same_text,
}

All-get_elem? {ℓ κ} :
    {A : Type ℓ} (P : A → Type κ) (xs : List A) (i : ℕ) (d : A)
    → All P xs
    → get_elem? xs i ≡ some d
    → P d
All-get_elem? P [] i d a h = cc
All-get_elem? P (x ∷ xs) zero d a h = let e : x ≡ d = cc in subst P e a.0
All-get_elem? P (x ∷ xs) (suc i) d a h = All-get_elem? P xs i d a.1 h

pub encode_injective :
    (a b : Bytes) → All IsByte a → All IsByte b → encode_to_string a ≡ encode_to_string b → a ≡ b
encode_injective a b p q e =
    cc (decode_string-encode a p, decode_string-encode b q, ap decode_string e)

module _ (sha256 : Bytes → Digest) where
  -- A node of the tree over some entries: a leaf, or the parent of two nodes. Its text is one of a list.
  pub data Node (hs : List Digest) (ts : List Bytes) : Digest → Type 0 where
    leaf :
        {d : Digest} (e : Digest) (i : ℕ)
        → get_elem? hs i ≡ some e
        → Hashed (0 ∷ e) ts
        → d ≡ leaf_hash sha256 e
        → Node hs ts d
    node :
        {d : Digest} (a b : Digest)
        → Node hs ts a
        → Node hs ts b
        → Hashed (1 ∷ a ++ b) ts
        → d ≡ node_hash sha256 a b
        → Node hs ts d

  pub Node-IsDigest :
      (hs : List Digest) (ts : List Bytes) (d : Digest)
      → GivesDigests sha256
      → Node hs ts d
      → IsDigest d
  unfolding leaf_hash node_hash
  Node-IsDigest hs ts d s (leaf e i h t p) = rw p (s (0 ∷ e))
  Node-IsDigest hs ts d s (node a b u v t p) = rw p (s (1 ∷ a ++ b))

  -- A node that is the digest of two children has these children, or there is a collision.
  pub children :
      (hs : List Digest) (ts us : List Bytes) (d a b : Digest)
      → GivesDigests sha256
      → length a ≡ 32
      → Hashed (1 ∷ a ++ b) us
      → Node hs ts d
      → d ≡ node_hash sha256 a b
      → (Node hs ts a × Node hs ts b) ⊎ (collide sha256 ts us ≡ true)
  unfolding leaf_hash node_hash
  children hs ts us d a b s n w (leaf e i h t p) q =
      inr (collide_intro sha256 ts us (0 ∷ e) (1 ∷ a ++ b) t w (ground arith) (sym p ∙ q))
  children hs ts us d a b s n w (node x y u v t p) q =
      elim (same_text sha256 ts us (1 ∷ x ++ y) (1 ∷ a ++ b) t w (sym p ∙ q)) [
        | inl e ↦
            let (left, right) =
              append_injective x y a b ((Node-IsDigest hs ts x s u).0 ∙ sym n) (cc) in
            inl (subst (Node hs ts) left u, subst (Node hs ts) right v)
        | inr c ↦ inr c
      ]

  -- A digest of an entry that is a node is that of an entry of the ledger, or there is a collision.
  pub leaf_entry :
      (hs : List Digest) (ts us : List Bytes) (d e : Digest)
      → Hashed (0 ∷ e) us
      → Node hs ts d
      → d ≡ leaf_hash sha256 e
      → ((i : ℕ) × (get_elem? hs i ≡ some e)) ⊎ (collide sha256 ts us ≡ true)
  unfolding leaf_hash node_hash
  leaf_entry hs ts us d e w (leaf f i h t p) q =
      elim (same_text sha256 ts us (0 ∷ f) (0 ∷ e) t w (sym p ∙ q)) [
        | inl z ↦ inl (i, h ∙ cc)
        | inr c ↦ inr c
      ]
  leaf_entry hs ts us d e w (node a b u v t p) q =
      inr (collide_intro sha256 ts us (1 ∷ a ++ b) (0 ∷ e) t w (ground arith) (sym p ∙ q))

  -- Every digest of every level is a node.
  pair_up-Node :
      (hs : List Digest) (ts : List Bytes) (xs : List Digest)
      → ((t : Bytes) → Hashed t (pair_texts xs) → Hashed t ts)
      → All (Node hs ts) xs
      → All (Node hs ts) (pair_up sha256 xs)
  unfolding pair_up pair_texts
  pair_up-Node hs ts [] k a = a
  pair_up-Node hs ts (x ∷ []) k a = a
  pair_up-Node hs ts (x ∷ y ∷ r) k a = (
    node x y a.0 a.1.0 (k (1 ∷ x ++ y) (Hashed-here (1 ∷ x ++ y) (pair_texts r))) refl,
    pair_up-Node hs ts r (λ t h. k t (Hashed-there t (1 ∷ x ++ y) (pair_texts r) h)) a.1.1,
  )

  pub leaves_of-Node :
      (hs : List Digest) (ts : List Bytes) (xs : List Digest) (k : ℕ)
      → ((t : Bytes) → Hashed t (leaf_texts xs) → Hashed t ts)
      → ((i : ℕ) (e : Digest) → get_elem? xs i ≡ some e → get_elem? hs (i + k) ≡ some e)
      → All (Node hs ts) (leaves_of sha256 xs)
  unfolding leaves_of leaf_texts
  leaves_of-Node hs ts [] k into at = tt
  leaves_of-Node hs ts (x ∷ xs) k into at = (
    leaf x k (subst (λ (j : ℕ). get_elem? hs j ≡ some x) (omega arith) (at 0 x refl))
        (into (0 ∷ x) (Hashed-here (0 ∷ x) (leaf_texts xs))) refl,
    leaves_of-Node hs ts xs (suc k) (λ t h. into t (Hashed-there t (0 ∷ x) (leaf_texts xs) h))
        (λ i e h. subst (λ (j : ℕ). get_elem? hs j ≡ some e) (omega arith) (at (suc i) e h)),
  )

  top-above :
      (fuel : ℕ) (x y : Digest) (l : List Digest) (r : Digest)
      → top (grow sha256 (suc fuel) (x ∷ y ∷ l)) ≡ some r
      → top (grow sha256 fuel (pair_up sha256 (x ∷ y ∷ l))) ≡ some r
  top-above fuel x y l r h =
      sym (top-grow sha256 (x ∷ y ∷ l) (pair_up sha256 (x ∷ y ∷ l)) fuel)
      ∙ (rw (grow-more sha256 fuel x y l) at h)

  pub top-Node :
      (hs : List Digest) (ts : List Bytes) (fuel : ℕ) (xs : List Digest) (r : Digest)
      → ((t : Bytes) → Hashed t (grow_texts sha256 fuel xs) → Hashed t ts)
      → All (Node hs ts) xs
      → top (grow sha256 fuel xs) ≡ some r
      → Node hs ts r
  unfolding grow top grow_texts
  top-Node hs ts zero xs r k a h = All-get_elem? (Node hs ts) xs 0 r a h
  top-Node hs ts (suc fuel) [] r k a h = cc
  top-Node hs ts (suc fuel) (x ∷ []) r k a h = All-get_elem? (Node hs ts) (x ∷ []) 0 r a h
  top-Node hs ts (suc fuel) (x ∷ y ∷ s) r k a h =
      let here = pair_texts (x ∷ y ∷ s) in
      let above = grow_texts sha256 fuel (pair_up sha256 (x ∷ y ∷ s)) in
      top-Node hs ts fuel (pair_up sha256 (x ∷ y ∷ s)) r (λ t m. k t (Hashed-right t here above m))
        (pair_up-Node hs ts (x ∷ y ∷ s) (λ t m. k t (Hashed-left t here above m)) a)
        (top-above fuel x y s r h)
