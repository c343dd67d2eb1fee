-- ===== src/Modelcheck/Counted.antt =====
-- internal/modelcheck/bfs.go: every admitted state is decided on once.
use resilient_mesh_razorpayb.Base.{
  ℕ, zero, suc, ◌+◌, ◌≤◌, ◌≡◌, refl, ◌∙◌, on, List, [], ◌∷◌, arith, length, Result, ok, err,
}
use resilient_mesh_razorpayb.Modelcheck.Search.{Traversal, offer, admit, visit, explore, start, run}
use resilient_mesh_razorpayb.Modelcheck.Reach.{nil_or_cons, length_of}
use resilient_mesh_razorpayb.Modelcheck.Fixpoint.{
  explore-next, explore-empty, admit-Grows, run-finished,
}
use resilient_mesh_razorpayb.Modelcheck.Successors.{seed}
use resilient_mesh_razorpayb.Modelcheck.Explorer.{
  Tally, Judge, assert, judge, inspect, edges, ModelConfig, exploration, report_of, run_context,
  bound_in_force, clock_in_force, gate_in_force, nothing_yet,
}
use resilient_mesh_razorpayb.Domain.Records.{GateInput, SanitizedCommand}
use resilient_mesh_razorpayb.Domain.Times.{Time}
use resilient_mesh_razorpayb.Gatekeeper.Decide.{GateError}

module _ {T : Type 0} (successors : ℕ → List ℕ) (inspect : ℕ → T → T) (max_states : ℕ)
    (count : T → ℕ) (counts : (k : ℕ) (x : T) → count (inspect k x) ≡ suc (count x)) where
  offer-tally :
      (k : ℕ) (t : Traversal T) → (offer successors inspect max_states k t).tally ≡ t.tally
  unfolding offer
  offer-tally k t = ground arith

  admit-tally :
      (ks : List ℕ) (t : Traversal T) → (admit successors inspect max_states ks t).tally ≡ t.tally
  unfolding admit
  admit-tally [] t = refl
  admit-tally (k ∷ ks) t = admit-tally ks _ ∙ offer-tally k t

  -- The states that are admitted and no longer waiting have been visited.
  abbrev Counts : Traversal T → Type 0
  Counts t = count t.tally + length t.frontier ≡ length t.visited

  visit-Counts :
      (k : ℕ) (rest : List ℕ) (t : Traversal T)
      → t.frontier ≡ k ∷ rest
      → Counts t
      → Counts (visit successors inspect max_states k (record t { frontier = rest }))
  unfolding visit
  visit-Counts k rest t e i =
      let u = record t {
        frontier = rest;
        tally = inspect k t.tally;
        transitions = t.transitions + length (successors k);
      } in
      let g = admit-Grows successors inspect max_states (successors k) u in
      rw (admit-tally (successors k) u) (omega (arith, g.counts, counts k t.tally, length_of e, i))

  explore-Counts :
      (rounds : ℕ) (t : Traversal T)
      → Counts t
      → Counts (explore successors inspect max_states rounds t)
  unfolding explore
  explore-Counts zero t i = i
  explore-Counts (suc rounds) t i =
      on (nil_or_cons t.frontier)
        (λ e. rw (explore-empty successors inspect max_states (suc rounds) t e) i)
        (λ (k, rest, e).
          rw (explore-next successors inspect max_states rounds k rest t e)
            (explore-Counts rounds _ (visit-Counts k rest t e i)))

  run-Counts :
      (seeds : List ℕ) (x : T)
      → count x ≡ 0
      → count (run successors inspect max_states seeds x).tally
        ≡ length (run successors inspect max_states seeds x).visited
  unfolding run start
  run-Counts seeds x z =
      let (e, _) = run-finished successors inspect max_states seeds x in
      let i =
        explore-Counts max_states (start successors inspect max_states seeds x)
          (omega (arith, z)) in
      omega (arith, length_of e, i)

judge-visits :
    (i : GateInput) (r : Result GateError SanitizedCommand) (t : Tally)
    → (judge i r t).visits ≡ t.visits
unfolding judge assert
judge-visits i (err e) t = refl
judge-visits i (ok cmd) t = refl

inspect-visits :
    (gate : Judge) (now : Time) (k : ℕ) (t : Tally) → (inspect gate now k t).visits ≡ suc t.visits
unfolding inspect
inspect-visits gate now k t = judge-visits _ _ _

-- Whatever gate is explored, the run makes one decision for every state that it reports as reachable,
-- and reports no more of them than the bound in force.
pub run_context-decisions :
    (c : ModelConfig)
    → ((run_context c).decisions ≡ (run_context c).reachable_states)
      × ((run_context c).reachable_states ≤ bound_in_force c)
unfolding run_context report_of exploration
run_context-decisions c =
    let gate = gate_in_force c in
    let now = clock_in_force c in
    (
      run-Counts (edges gate now) (inspect gate now) (bound_in_force c) (λ (t : Tally). t.visits)
          (inspect-visits gate now) seed nothing_yet refl,
      (run-finished (edges gate now) (inspect gate now) (bound_in_force c) seed nothing_yet).1,
    )
