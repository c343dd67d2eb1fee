-- ===== src/Modelcheck/Keeps.antt =====
-- internal/modelcheck/bfs.go: what an exploration keeps, of every state it admits and of its tallies.
use resilient_mesh_razorpayb.Base.{ℕ, zero, suc, subst, on, List, [], ◌∷◌, ◌++◌, arith, take, All}
use resilient_mesh_razorpayb.Modelcheck.Reach.{nil_or_cons}
use resilient_mesh_razorpayb.Modelcheck.Fixpoint.{explore-next, explore-empty}
use resilient_mesh_razorpayb.Modelcheck.Search.{
  Traversal, insert_key, sort_keys, offer, admit, visit, explore, start, run,
}

pub All-append {ℓ κ} :
    {A : Type ℓ} (P : A → Type κ) (xs ys : List A) → All P xs → All P ys → All P (xs ++ ys)
All-append P [] ys p q = q
All-append P (x ∷ xs) ys (h, p) q = (h, All-append P xs ys p q)

pub All-take {ℓ κ} :
    {A : Type ℓ} (P : A → Type κ) (n : ℕ) (xs : List A) → All P xs → All P (take n xs)
All-take P zero xs p = tt
All-take P (suc n) [] p = tt
All-take P (suc n) (x ∷ xs) (h, p) = (h, All-take P n xs p)

-- Sorting brings in no new key.
insert_key-All : (P : ℕ → Type 0) (k : ℕ) (ks : List ℕ) → P k → All P ks → All P (insert_key k ks)
unfolding insert_key
insert_key-All P k [] h p = (h, tt)
insert_key-All P k (x ∷ xs) h (g, p) = let rest = insert_key-All P k xs h p in ground arith

pub sort_keys-All : (P : ℕ → Type 0) (ks : List ℕ) → All P ks → All P (sort_keys ks)
unfolding sort_keys
sort_keys-All P [] p = tt
sort_keys-All P (k ∷ ks) (h, p) = insert_key-All P k (sort_keys ks) h (sort_keys-All P ks p)

module _ {T : Type 0} (successors : ℕ → List ℕ) (inspect : ℕ → T → T) (max_states : ℕ) where
  module _ (Q : ℕ → Type 0) (P : T → Type 0) where
    pub record Kept (t : Traversal T) : Type 0 where
      pub queue : All Q t.frontier
      pub admitted : All Q t.visited
      pub counted : P t.tally

    offer-Kept :
        (k : ℕ) (t : Traversal T) → Q k → Kept t → Kept (offer successors inspect max_states k t)
    unfolding offer
    offer-Kept k t q i =
        let a = All-append Q t.visited (k ∷ []) i.admitted (q, tt) in
        let b = All-append Q t.frontier (k ∷ []) i.queue (q, tt) in ground arith

    admit-Kept :
        (ks : List ℕ) (t : Traversal T)
        → All Q ks
        → Kept t
        → Kept (admit successors inspect max_states ks t)
    unfolding admit
    admit-Kept [] t q i = i
    admit-Kept (k ∷ ks) t (h, q) i = admit-Kept ks _ q (offer-Kept k t h i)

    module _ (onward : (k : ℕ) → Q k → All Q (successors k))
        (counts : (k : ℕ) (x : T) → Q k → P x → P (inspect k x)) where
      visit-Kept :
          (k : ℕ) (rest : List ℕ) (t : Traversal T)
          → All Q (k ∷ rest)
          → Kept t
          → Kept (visit successors inspect max_states k (record t { frontier = rest }))
      unfolding visit
      visit-Kept k rest t (q, qs) i =
          admit-Kept (successors k) _ (onward k q)
            (record { queue = qs; admitted = i.admitted; counted = counts k t.tally q i.counted })

      explore-Kept :
          (rounds : ℕ) (t : Traversal T)
          → Kept t
          → Kept (explore successors inspect max_states rounds t)
      unfolding explore
      explore-Kept zero t i = i
      explore-Kept (suc rounds) t i =
          on (nil_or_cons t.frontier)
            (λ e. rw (explore-empty successors inspect max_states (suc rounds) t e) i)
            (λ (k, rest, e).
              rw (explore-next successors inspect max_states rounds k rest t e)
                (explore-Kept rounds _ (visit-Kept k rest t (subst (All Q) e i.queue) i)))

      -- What holds of the seeds and follows along every edge holds of every state admitted, and what
      -- every visit of such a state keeps holds of the tally at the end.
      pub run-Kept :
          (seeds : List ℕ) (x : T)
          → All Q seeds
          → P x
          → Kept (run successors inspect max_states seeds x)
      unfolding run start
      run-Kept seeds x q p =
          let kept = All-take Q max_states seeds q in
          explore-Kept max_states _ (record { queue = kept; admitted = kept; counted = p })
