-- ===== src/Modelcheck/Fixpoint.antt =====
-- internal/modelcheck/bfs.go: the traversal reaches the fixpoint of the transition relation, or says
-- that it was bounded.
use resilient_mesh_razorpayb.Base.{
  ℕ, zero, suc, ◌+◌, ◌≤◌, ◌≡◌, refl, sym, ◌↔◌, ◌⊎◌, on, inl, inr, true, false, List, [], ◌∷◌, arith,
  length, length-append, length-take,
}
use resilient_mesh_razorpayb.Modelcheck.Search.{
  Traversal, seen, offer, admit, visit, explore, start, run,
}
use resilient_mesh_razorpayb.Modelcheck.Reach.{
  Reach, seeded, step, seen_cases, seen_head, seen_tail, seen_self, seen_eq, length_of, length_zero,
  nil_or_cons, seen-take, take_all, seen-append, seen_nil, seen_subst,
}

module _ {T : Type 0} (successors : ℕ → List ℕ) (inspect : ℕ → T → T) (max_states : ℕ) where
  -- What one offer, and then a list of them, does to a state.
  pub record Grows (ks : List ℕ) (t u : Traversal T) : Type 0 where
    keeps : (v : ℕ) → seen v t.visited ≡ true → seen v u.visited ≡ true
    keeps_queue : (v : ℕ) → seen v t.frontier ≡ true → seen v u.frontier ≡ true
    was_free : u.bounded ≡ false → t.bounded ≡ false
    takes : (v : ℕ) → u.bounded ≡ false → seen v ks ≡ true → seen v u.visited ≡ true
    only : (v : ℕ) → seen v u.visited ≡ true → (seen v t.visited ≡ true) ⊎ (seen v ks ≡ true)
    queues :
        (v : ℕ) → seen v u.visited ≡ true → (seen v t.visited ≡ true) ⊎ (seen v u.frontier ≡ true)
    queued :
        (v : ℕ) → seen v u.frontier ≡ true → (seen v t.frontier ≡ true) ⊎ (seen v u.visited ≡ true)
    pub counts : length u.visited + length t.frontier ≡ length t.visited + length u.frontier
    within : length t.visited ≤ max_states → length u.visited ≤ max_states

  offer-Grows :
      (k : ℕ) (t : Traversal T) → Grows (k ∷ []) t (offer successors inspect max_states k t)
  unfolding offer
  offer-Grows k t = record {
    keeps = λ v h. ground (arith, seen-append v k t.visited);
    keeps_queue = λ v h. ground (arith, seen-append v k t.frontier);
    was_free = λ h. ground arith;
    takes = λ v b h. ground (arith, seen-append v k t.visited);
    only = λ v h. ground (arith, seen-append v k t.visited);
    queues = λ v h. ground (arith, seen-append v k t.visited, seen-append v k t.frontier);
    queued = λ v h. ground (arith, seen-append v k t.visited, seen-append v k t.frontier);
    counts = ground (arith, length-append t.visited (k ∷ []), length-append t.frontier (k ∷ []));
    within = λ h. ground (arith, length-append t.visited (k ∷ []));
  }

  pub admit-Grows :
      (ks : List ℕ) (t : Traversal T) → Grows ks t (admit successors inspect max_states ks t)
  unfolding admit
  admit-Grows [] t = record {
    keeps = λ v h. h;
    keeps_queue = λ v h. h;
    was_free = λ h. h;
    takes = λ v b h. ground arith;
    only = λ v h. inl h;
    queues = λ v h. inl h;
    queued = λ v h. inl h;
    counts = omega arith;
    within = λ h. h;
  }
  admit-Grows (k ∷ ks) t =
      let u = offer successors inspect max_states k t in
      let a = offer-Grows k t in
      let b = admit-Grows ks u in
      record {
        keeps = λ v h. b.keeps v (a.keeps v h);
        keeps_queue = λ v h. b.keeps_queue v (a.keeps_queue v h);
        was_free = λ h. a.was_free (b.was_free h);
        takes = λ v f h.
            on (seen_cases v k ks h) (λ e. b.keeps v (a.takes v (b.was_free f) e))
              (λ e. b.takes v f e);
        only = λ v h.
            on (b.only v h) (λ e. on (a.only v e) inl (λ e'. inr (seen_head v k ks e')))
              (λ e. inr (seen_tail v k ks e));
        queues = λ v h.
            on (b.queues v h) (λ e. on (a.queues v e) inl (λ e'. inr (b.keeps_queue v e'))) inr;
        queued =
            λ v h. on (b.queued v h) (λ e. on (a.queued v e) inl (λ e'. inr (b.keeps v e'))) inr;
        counts = omega (arith, a.counts, b.counts);
        within = λ h. b.within (a.within h);
      }

  -- What holds of the traversal between two visits, with this many rounds left.
  record Explored (seeds : List ℕ) (rounds : ℕ) (t : Traversal T) : Type 0 where
    paced : length t.visited + rounds ≡ max_states + length t.frontier
    bound_kept : length t.visited ≤ max_states
    from_visited : (v : ℕ) → seen v t.frontier ≡ true → seen v t.visited ≡ true
    sound : (v : ℕ) → seen v t.visited ≡ true → Reach successors seeds v
    closed_up :
        (u v : ℕ)
        → t.bounded ≡ false
        → seen u t.visited ≡ true
        → seen v (successors u) ≡ true
        → (seen u t.frontier ≡ true) ⊎ (seen v t.visited ≡ true)
    has_seeds : (v : ℕ) → t.bounded ≡ false → seen v seeds ≡ true → seen v t.visited ≡ true

  visit-Explored :
      (seeds : List ℕ) (rounds k : ℕ) (rest : List ℕ) (t : Traversal T)
      → t.frontier ≡ k ∷ rest
      → Explored seeds (suc rounds) t
      → Explored seeds rounds (visit successors inspect max_states k (record t { frontier = rest }))
  unfolding visit
  visit-Explored seeds rounds k rest t e i =
      let g = admit-Grows (successors k) (record t {
        frontier = rest;
        tally = inspect k t.tally;
        transitions = t.transitions + length (successors k);
      }) in
      let here = i.sound k (i.from_visited k (seen_subst k (sym e) (seen_self k rest))) in
      record {
        paced = omega (arith, g.counts, i.paced, length_of e);
        bound_kept = g.within i.bound_kept;
        from_visited = λ v h.
            on (g.queued v h)
              (λ q. g.keeps v (i.from_visited v (seen_subst v (sym e) (seen_tail v k rest q))))
              (λ q. q);
        sound = λ v h. on (g.only v h) (i.sound v) (λ s. step k v here s);
        closed_up = λ u v f h s.
            on (g.queues u h)
              (λ q.
                on (i.closed_up u v (g.was_free f) q s)
                  (λ w.
                    on (seen_cases u k rest (seen_subst u e w))
                      (λ x. inr (g.takes v f (rw (sym (seen_eq u k x)) s)))
                      (λ x. inl (g.keeps_queue u x)))
                  (λ w. inr (g.keeps v w)))
              inl;
        has_seeds = λ v f s. g.keeps v (i.has_seeds v (g.was_free f) s);
      }

  pub explore-empty :
      (rounds : ℕ) (t : Traversal T)
      → t.frontier ≡ []
      → explore successors inspect max_states rounds t ≡ t
  unfolding explore
  explore-empty zero t e = refl
  explore-empty (suc rounds) t e = rw e refl

  pub explore-next :
      (rounds k : ℕ) (rest : List ℕ) (t : Traversal T)
      → t.frontier ≡ k ∷ rest
      → explore successors inspect max_states (suc rounds) t
        ≡ explore successors inspect max_states rounds
            (visit successors inspect max_states k (record t { frontier = rest }))
  unfolding explore
  explore-next rounds k rest t e = rw e refl

  -- The traversal has ended.
  record Ended (seeds : List ℕ) (t : Traversal T) : Type 0 where
    left : ℕ
    explored : Explored seeds left t
    emptied : t.frontier ≡ []

  explore-Ended :
      (seeds : List ℕ) (rounds : ℕ) (t : Traversal T)
      → Explored seeds rounds t
      → Ended seeds (explore successors inspect max_states rounds t)
  explore-Ended seeds zero t i =
      let e = length_zero t.frontier (omega (arith, i.paced, i.bound_kept)) in
      rw (explore-empty zero t e) (record { left = zero; explored = i; emptied = e })
  explore-Ended seeds (suc rounds) t i =
      on (nil_or_cons t.frontier)
        (λ e.
          rw (explore-empty (suc rounds) t e)
            (record { left = suc rounds; explored = i; emptied = e }))
        (λ (k, rest, e).
          rw (explore-next rounds k rest t e)
            (explore-Ended seeds rounds _ (visit-Explored seeds rounds k rest t e i)))

  start-Explored :
      (seeds : List ℕ) (x : T)
      → Explored seeds max_states (start successors inspect max_states seeds x)
  unfolding start
  start-Explored seeds x = record {
    paced = omega arith;
    bound_kept = length-take max_states seeds;
    from_visited = λ v h. h;
    sound = λ v h. seeded v (seen-take max_states v seeds h);
    closed_up = λ u v f h s. inl h;
    has_seeds = λ v f h. rw (take_all max_states seeds (ground arith)) h;
  }

  run-Ended : (seeds : List ℕ) (x : T) → Ended seeds (run successors inspect max_states seeds x)
  unfolding run
  run-Ended seeds x = explore-Ended seeds max_states _ (start-Explored seeds x)

  -- The rounds that the bound on the states allows are enough: when the exploration ends, no state is
  -- left to visit, and it has admitted at most MaxStates of them.
  pub run-finished :
      (seeds : List ℕ) (x : T)
      → ((run successors inspect max_states seeds x).frontier ≡ [])
        × (length (run successors inspect max_states seeds x).visited ≤ max_states)
  run-finished seeds x = ((run-Ended seeds x).emptied, (run-Ended seeds x).explored.bound_kept)

  -- Every state the exploration visits is one that the transition relation leads to from the seeds.
  pub run_sound :
      (seeds : List ℕ) (x : T) (v : ℕ)
      → seen v (run successors inspect max_states seeds x).visited ≡ true
      → Reach successors seeds v
  run_sound seeds x v = (run-Ended seeds x).explored.sound v

  -- The exploration computes the reachable states: when its report does not say that it stopped at
  -- the bound, the visited states are exactly those the transition relation leads to from the seeds.
  pub run_complete :
      (seeds : List ℕ) (x : T)
      → (run successors inspect max_states seeds x).bounded ≡ false
      → (v : ℕ)
      → (seen v (run successors inspect max_states seeds x).visited ≡ true)
        ↔ Reach successors seeds v
  run_complete seeds x free v = (run_sound seeds x v, ahead v)
    where
      ahead :
          (v : ℕ)
          → Reach successors seeds v
          → seen v (run successors inspect max_states seeds x).visited ≡ true
      ahead v (seeded k h) = (run-Ended seeds x).explored.has_seeds k free h
      ahead v (step u w r h) =
          let i = (run-Ended seeds x).explored in
          on (i.closed_up u w free (ahead u r) h)
            (λ q. absurd (seen_nil u _ (run-Ended seeds x).emptied q)) (λ q. q)
