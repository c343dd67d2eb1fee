-- ===== src/Attest/Texts.antt =====
-- internal/attest/merkle.go: the texts that New and VerifyProof hash, and when two such lists of texts
-- hold a collision of SHA-256. Both lists are finite, so that a collision is found by running through
-- them, and a hash that keeps these texts apart has none.
use resilient_mesh_razorpayb.Base.{
  ℕ, zero, suc, ◌≡◌, refl, sym, ap, ◌∙◌, ◌⊎◌, inl, inr, Bool, true, false, not, ◌&&◌, Option, none,
  some, List, [], ◌∷◌, ◌++◌, arith, Bool-cases, if◌then◌else◌, any, length, list_eq, list_eq-eq,
  list_eq_refl, any-append,
}
use resilient_mesh_razorpayb.Text.{Bytes}
use resilient_mesh_razorpayb.Attest.Hex.{decode_string}
use resilient_mesh_razorpayb.Attest.Tree.{Digest, Step, Proof, pair_up, leaves_of, climb_step}

-- A text of a list.
abbrev pub Hashed : Bytes → List Bytes → Type 0
Hashed x ts = any (λ t. list_eq t x) ts ≡ true

pub Hashed-here : (x : Bytes) (ts : List Bytes) → Hashed x (x ∷ ts)
Hashed-here x ts = rw (list_eq_refl x) refl

pub Hashed-there : (x y : Bytes) (ts : List Bytes) → Hashed x ts → Hashed x (y ∷ ts)
Hashed-there x y ts h = ground (arith, h)

pub Hashed-left : (x : Bytes) (ts us : List Bytes) → Hashed x ts → Hashed x (ts ++ us)
Hashed-left x ts us h = ground (arith, h, any-append (λ t. list_eq t x) ts us)

pub Hashed-right : (x : Bytes) (ts us : List Bytes) → Hashed x us → Hashed x (ts ++ us)
Hashed-right x ts us h = ground (arith, h, any-append (λ t. list_eq t x) ts us)

-- The texts that New hashes for the leaves.
unfoldable pub leaf_texts : List Digest → List Bytes
leaf_texts [] = []
leaf_texts (e ∷ r) = (0 ∷ e) ∷ leaf_texts r

-- The texts that it hashes for the level above one.
unfoldable pub pair_texts : List Digest → List Bytes
pair_texts [] = []
pair_texts (x ∷ []) = []
pair_texts (x ∷ y ∷ r) = (1 ∷ x ++ y) ∷ pair_texts r

-- The text that one step of VerifyProof hashes.
unfoldable pub step_text : Option Bytes → Bool → Digest → Bytes
step_text none right cur = []
step_text (some sib) right cur = if right then 1 ∷ cur ++ sib else 1 ∷ sib ++ cur

module _ (sha256 : Bytes → Digest) where
  -- The texts that it hashes for all the levels above one.
  unfoldable pub grow_texts : ℕ → List Digest → List Bytes
  unfolding pair_texts
  grow_texts zero cur = []
  grow_texts (suc fuel) [] = []
  grow_texts (suc fuel) (x ∷ []) = []
  grow_texts (suc fuel) (x ∷ y ∷ r) =
      pair_texts (x ∷ y ∷ r) ++ grow_texts fuel (pair_up sha256 (x ∷ y ∷ r))

  -- Every text that New hashes for a tree over some entries.
  unfoldable pub tree_texts : List Digest → List Bytes
  unfolding leaf_texts grow_texts
  tree_texts hs = leaf_texts hs ++ grow_texts (length hs) (leaves_of sha256 hs)

  -- The texts that the loop of VerifyProof hashes.
  unfoldable pub climb_texts : List Step → Digest → List Bytes
  unfolding step_text
  climb_texts [] cur = []
  climb_texts (s ∷ ss) cur = elim (climb_step sha256 (decode_string s.hash) s.right cur) [
    | none ↦ []
    | some next ↦ step_text (decode_string s.hash) s.right cur ∷ climb_texts ss next
  ]

  -- Every text that VerifyProof hashes for an entry and a proof.
  unfoldable pub proof_texts : Digest → Proof → List Bytes
  unfolding climb_texts
  proof_texts e p = (0 ∷ e) ∷ climb_texts p.path (sha256 (0 ∷ e))

  -- Whether a text of a list has the same digest as a given other text.
  unfoldable pub clashes : Bytes → List Bytes → Bool
  clashes x us = any (λ y. not (list_eq x y) && list_eq (sha256 x) (sha256 y)) us

  -- Whether a text of the one list and a different text of the other have the same digest.
  unfoldable pub collide : List Bytes → List Bytes → Bool
  unfolding clashes
  collide ts us = any (λ x. clashes x us) ts

  any-Hashed :
      (p : Bytes → Bool) (x : Bytes) (ts : List Bytes) → Hashed x ts → p x ≡ true → any p ts ≡ true
  any-Hashed p x [] h q = h
  any-Hashed p x (t ∷ ts) h q = elim (Bool-cases (list_eq t x)) [
    | inl e ↦ let same : p t ≡ true = ap p (list_eq-eq t x e) ∙ q in ground (arith, same)
    | inr e ↦ let rest = any-Hashed p x ts (ground (arith, h, e)) q in ground (arith, rest)
  ]

  pub collide_intro :
      (ts us : List Bytes) (x y : Bytes)
      → Hashed x ts
      → Hashed y us
      → list_eq x y ≡ false
      → sha256 x ≡ sha256 y
      → collide ts us ≡ true
  unfolding collide clashes
  collide_intro ts us x y a b n h =
      let same : list_eq (sha256 x) (sha256 y) ≡ true =
        ap (λ d. list_eq (sha256 x) d) (sym h) ∙ list_eq_refl (sha256 x) in
      any-Hashed (λ z. clashes z us) x ts a
        (any-Hashed (λ z. not (list_eq x z) && list_eq (sha256 x) (sha256 z)) y us b
          (rw (n, same) refl))

  -- Equal digests come from one text, or are a collision.
  pub same_text :
      (ts us : List Bytes) (x y : Bytes)
      → Hashed x ts
      → Hashed y us
      → sha256 x ≡ sha256 y
      → (x ≡ y) ⊎ (collide ts us ≡ true)
  same_text ts us x y a b h = elim (Bool-cases (list_eq x y)) [
    | inl e ↦ inl (list_eq-eq x y e)
    | inr e ↦ inr (collide_intro ts us x y a b e h)
  ]
