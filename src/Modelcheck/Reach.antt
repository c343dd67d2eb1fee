-- ===== src/Modelcheck/Reach.antt =====
-- internal/modelcheck/bfs.go: the states a transition relation leads to, and the lists of keys the
-- traversal keeps.
use resilient_mesh_razorpayb.Base.{
  ℕ, zero, suc, ◌≤◌, ◌≡◌, refl, ap, ◌∙◌, subst, ◌⊎◌, on, inl, inr, true, ◌||◌, List, [], ◌∷◌, ◌++◌,
  arith, ◌==◌, length, take, any-append,
}
use resilient_mesh_razorpayb.Modelcheck.Search.{seen}

pub seen-append : (v k : ℕ) (ks : List ℕ) → seen v (ks ++ k ∷ []) ≡ (seen v ks || k == v)
seen-append v k ks = any-append (λ (x : ℕ). x == v) ks (k ∷ []) ∙ ground arith

-- A key of a list is its head or in its tail.
pub seen_cases :
    (v k : ℕ) (ks : List ℕ) → seen v (k ∷ ks) ≡ true → (seen v (k ∷ []) ≡ true) ⊎ (seen v ks ≡ true)
seen_cases v k ks h = ground arith

pub seen_head : (v k : ℕ) (ks : List ℕ) → seen v (k ∷ []) ≡ true → seen v (k ∷ ks) ≡ true
seen_head v k ks h = ground arith

pub seen_tail : (v k : ℕ) (ks : List ℕ) → seen v ks ≡ true → seen v (k ∷ ks) ≡ true
seen_tail v k ks h = ground arith

pub seen_self : (k : ℕ) (ks : List ℕ) → seen k (k ∷ ks) ≡ true
seen_self k ks = ground arith

pub seen_eq : (u k : ℕ) → seen u (k ∷ []) ≡ true → u ≡ k
seen_eq u k h = ground arith

pub length_of : {xs ys : List ℕ} → xs ≡ ys → length xs ≡ length ys
length_of e = ap length e

pub seen_subst : (u : ℕ) {xs ys : List ℕ} → xs ≡ ys → seen u xs ≡ true → seen u ys ≡ true
seen_subst u e h = subst (λ (l : List ℕ). seen u l ≡ true) e h

pub seen_nil : (u : ℕ) (xs : List ℕ) → xs ≡ [] → seen u xs ≡ true → ⊥
seen_nil u [] e h = ground arith
seen_nil u (x ∷ xs) e h = ground arith

pub length_zero : (xs : List ℕ) → length xs ≡ 0 → xs ≡ []
length_zero [] e = refl
length_zero (x ∷ xs) e = ground arith

pub nil_or_cons : (xs : List ℕ) → (xs ≡ []) ⊎ ((k : ℕ) × (rest : List ℕ) × (xs ≡ k ∷ rest))
nil_or_cons [] = inl refl
nil_or_cons (x ∷ xs) = inr (x, xs, refl)

pub seen-take : (n v : ℕ) (xs : List ℕ) → seen v (take n xs) ≡ true → seen v xs ≡ true
seen-take zero v xs h = ground arith
seen-take (suc n) v [] h = h
seen-take (suc n) v (x ∷ xs) h =
    on (seen_cases v x (take n xs) h) (seen_head v x xs)
      (λ q. seen_tail v x xs (seen-take n v xs q))

pub take_all : (n : ℕ) (xs : List ℕ) → length xs ≤ n → take n xs ≡ xs
take_all zero [] h = refl
take_all (suc n) [] h = refl
take_all zero (x ∷ xs) h = ground arith
take_all (suc n) (x ∷ xs) h = ap (λ (r : List ℕ). x ∷ r) (take_all n xs (omega arith))

-- The states the transition relation leads to from the seeds.
pub data Reach (successors : ℕ → List ℕ) (seeds : List ℕ) : ℕ → Type 0 where
  seeded : (k : ℕ) → seen k seeds ≡ true → Reach successors seeds k
  step :
      (k v : ℕ) → Reach successors seeds k → seen v (successors k) ≡ true → Reach successors seeds v
