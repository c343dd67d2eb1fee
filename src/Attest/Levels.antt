-- ===== src/Attest/Levels.antt =====
-- internal/attest/merkle.go: what one level of the tree says of the next.
use resilient_mesh_razorpayb.Base.{
  ℕ, zero, suc, ◌+◌, ◌/◌, ◌≡◌, refl, ap, ◌∙◌, Bool, true, false, some, List, [], ◌∷◌, ◌++◌, arith,
  ltb, if◌then◌else◌, length, get_elem?, All,
}
use resilient_mesh_razorpayb.Text.{Bytes}
use resilient_mesh_razorpayb.Attest.Hex.{
  encode_to_string, decode_string, IsByte, decode_string-encode,
}
use resilient_mesh_razorpayb.Attest.Tree.{
  step_of, Digest, Step, sibling_of, level_step, path_from, top, node_hash, pair_up, grow,
  leaves_of, climb_step, climb,
}

-- A digest is 32 bytes.
abbrev pub IsDigest : Digest → Type 0
IsDigest d = (length d ≡ 32) × All IsByte d

-- What the tree relies on of SHA-256: its results are digests.
abbrev pub GivesDigests : (Bytes → Digest) → Type 0
GivesDigests sha256 = (x : Bytes) → IsDigest (sha256 x)

half_shift : (i : ℕ) → suc (suc i) / 2 ≡ suc (i / 2)
half_shift i = omega arith

sibling_shift : (i : ℕ) → sibling_of (suc (suc i)) ≡ suc (suc (sibling_of i))
sibling_shift i = ground arith

ltb_shift : (i k : ℕ) → ltb (suc (suc i)) (suc (suc k)) ≡ ltb i k
ltb_shift i k = ground arith

-- Two nodes further on, the step of a level is that of the level's rest.
level_step_shift :
    (x y : Digest) (r : List Digest) (i : ℕ) → level_step (x ∷ y ∷ r) (suc (suc i)) ≡ level_step r i
unfolding level_step
level_step_shift x y r i =
    ap (λ (k : ℕ). step_of (get_elem? (x ∷ y ∷ r) k) (ltb (suc (suc i)) k)) (sibling_shift i)
    ∙ ap (step_of (get_elem? r (sibling_of i))) (ltb_shift i (sibling_of i))

module _ (sha256 : Bytes → Digest) where
  pub length-pair_up : (xs : List Digest) → length (pair_up sha256 xs) ≡ (length xs + 1) / 2
  unfolding pair_up
  length-pair_up [] = refl
  length-pair_up (x ∷ []) = refl
  length-pair_up (x ∷ y ∷ r) = omega (arith, length-pair_up r)

  pub length-leaves_of : (hs : List Digest) → length (leaves_of sha256 hs) ≡ length hs
  unfolding leaves_of
  length-leaves_of [] = refl
  length-leaves_of (h ∷ hs) = ap suc (length-leaves_of hs)

  pub pair_up-digests :
      (xs : List Digest) → GivesDigests sha256 → All IsDigest xs → All IsDigest (pair_up sha256 xs)
  unfolding pair_up node_hash
  pair_up-digests [] s h = h
  pair_up-digests (x ∷ []) s h = h
  pair_up-digests (x ∷ y ∷ r) s h = (s (1 ∷ x ++ y), pair_up-digests r s h.1.1)

  -- A path goes on above its first level.
  pub path_from-grow :
      (l ys : List Digest) (fuel i : ℕ)
      → path_from (l ∷ grow sha256 fuel ys) i
        ≡ level_step l i ++ path_from (grow sha256 fuel ys) (i / 2)
  unfolding grow path_from
  path_from-grow l ys zero i = refl
  path_from-grow l ys (suc fuel) i = ground arith

  pub top-grow :
      (l ys : List Digest) (fuel : ℕ) → top (l ∷ grow sha256 fuel ys) ≡ top (grow sha256 fuel ys)
  unfolding grow top
  top-grow l ys zero = refl
  top-grow l ys (suc fuel) = ground arith

  -- From a node of a level, a path climbs to its parent.
  abbrev pub Climbs : List Digest → ℕ → Digest → Type 0
  Climbs xs i d =
      (parent : Digest) × (get_elem? (pair_up sha256 xs) (i / 2) ≡ some parent)
      × ((rest : List Step) → climb sha256 (level_step xs i ++ rest) d ≡ climb sha256 rest parent)

  -- A sibling that is a digest is read back and hashed in.
  climb_step-sibling :
      (s d : Digest) (right : Bool)
      → IsDigest s
      → climb_step sha256 (decode_string (encode_to_string s)) right d
        ≡ some (if right then node_hash sha256 d s else node_hash sha256 s d)
  unfolding climb_step
  climb_step-sibling s d right h = rw (decode_string-encode s h.1, h.0)

  pub climbs :
      (xs : List Digest) (i : ℕ) (d : Digest)
      → All IsDigest xs
      → get_elem? xs i ≡ some d
      → Climbs xs i d
  unfolding pair_up level_step step_of climb
  climbs [] i d a h = cc
  climbs (x ∷ []) zero d a h = (x, refl, λ rest. ap (climb sha256 rest) (cc))
  climbs (x ∷ []) (suc i) d a h = cc
  climbs (x ∷ y ∷ r) zero d a h =
      (node_hash sha256 x y, refl, λ rest. rw (climb_step-sibling y d true a.1.0, climb) (cc))
  climbs (x ∷ y ∷ r) (suc zero) d a h =
      (node_hash sha256 x y, refl, λ rest. rw (climb_step-sibling x d false a.0, climb) (cc))
  climbs (x ∷ y ∷ r) (suc (suc i)) d a h =
      let (parent, at, up) = climbs r i d a.1.1 h in
      (
        parent,
        rw (half_shift i) at,
        λ rest.
            ap (λ (s : List Step). climb sha256 (s ++ rest) d) (level_step_shift x y r i) ∙ up rest,
      )
