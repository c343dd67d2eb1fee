-- ===== src/Modelcheck/Report.antt =====
-- internal/modelcheck/bfs.go: the report of a run against the real gate.
use resilient_mesh_razorpayb.Base.{
  ℕ, zero, suc, ◌≡◌, refl, sym, ◌∙◌, subst, ◌⊎◌, inl, inr, Bool, true, false, not, none, some, List,
  [], ◌∷◌, map, arith, ltb, ◌==◌, Bool-cases, get_elem?, All, ℤ, pos, ◌<ℤ◌, ok,
}
use resilient_mesh_razorpayb.Domain.Times.{Time}
use resilient_mesh_razorpayb.Domain.Records.{SanitizedCommand, GateInput}
use resilient_mesh_razorpayb.Gatekeeper.Config.{IsSafe, with_defaults, with_defaults-IsSafe}
use resilient_mesh_razorpayb.Gatekeeper.State.{Gate}
use resilient_mesh_razorpayb.Gatekeeper.Decide.{decide, new}
use resilient_mesh_razorpayb.Gatekeeper.Money.{decide_lem}
use resilient_mesh_razorpayb.Modelcheck.Space.{State, state_from_key}
use resilient_mesh_razorpayb.Modelcheck.Keys.{valid-IsIndexed, state_from_key-key}
use resilient_mesh_razorpayb.Modelcheck.Input.{gate_input}
use resilient_mesh_razorpayb.Modelcheck.Successors.{seed}
use resilient_mesh_razorpayb.Modelcheck.Checks.{invariants}
use resilient_mesh_razorpayb.Modelcheck.Passing.{decide_ceiling}
use resilient_mesh_razorpayb.Modelcheck.Verdict.{invariants_hold, gate_input-IsComplete}
use resilient_mesh_razorpayb.Modelcheck.Reached.{IsLawful, LawfulKey, successors-All}
use resilient_mesh_razorpayb.Modelcheck.Search.{Traversal}
use resilient_mesh_razorpayb.Modelcheck.Seeds.{seed-All}
use resilient_mesh_razorpayb.Modelcheck.Keeps.{run-Kept}
use resilient_mesh_razorpayb.Modelcheck.Explorer.{
  cap_in_force, with_attempts, first_reported, Tally, assert, judge, inspect, following, edges,
  bump, occurrences, halted_below, skewed, summarise_reachability, ModelConfig, clock_in_force,
  bound_in_force, gate_in_force, nothing_yet, exploration, report_of, run_context, passed, sum,
}

-- A key of a lawful state stands for that state.
LawfulKey-state : (cap : ℤ) (k : ℕ) → LawfulKey cap k → IsLawful cap (state_from_key k)
LawfulKey-state cap k (s, l, e) =
    rw (sym e) (rw (state_from_key-key s ((valid-IsIndexed s).1 l.indexed)) l)

-- Nine counters that agree.
abbrev pub nine : ℕ → List ℕ
nine n = n ∷ n ∷ n ∷ n ∷ n ∷ n ∷ n ∷ n ∷ n ∷ []

-- Nothing has failed, and everything was checked at every visit.
abbrev IsClean : ℤ → Tally → Type 0
IsClean most t =
    ((t.max_attempts ≡ pos 0) ⊎ (t.max_attempts ≡ most))
    × (t.counts ≡ nine 0)
    × (t.checked ≡ nine t.visits)

bump_none :
    (bs : List Bool) (ns : List ℕ) → All (λ (b : Bool). b ≡ true) bs → bump (map not bs) ns ≡ ns
unfolding bump
bump_none [] ns a = refl
bump_none (b ∷ bs) [] a = refl
bump_none (b ∷ bs) (n ∷ ns) (h, a) = rw (h, bump_none bs ns a) refl

bump_all :
    (reported : ℤ) (i : GateInput) (cmd : SanitizedCommand) (n : ℕ)
    → bump
        (map (λ (b : Bool). true) (invariants reported i cmd))
        (n ∷ n ∷ n ∷ n ∷ n ∷ n ∷ n ∷ n ∷ suc n ∷ [])
      ≡ nine (suc n)
unfolding bump invariants
bump_all reported i cmd n = refl

reported_same :
    (old ceiling most : ℤ)
    → (old ≡ pos 0) ⊎ (old ≡ most)
    → ceiling ≡ most
    → (first_reported old ceiling ≡ pos 0) ⊎ (first_reported old ceiling ≡ most)
unfolding first_reported
reported_same old ceiling most h e = ground arith

module _ (g : Gate) (now : Time) (safe : IsSafe g.cfg) where
  judge-IsClean :
      (s : State) (cmd : SanitizedCommand) (t : Tally) (n : ℕ)
      → decide false g now (gate_input now s) ≡ ok cmd
      → ((t.max_attempts ≡ pos 0) ⊎ (t.max_attempts ≡ g.cfg.max_attempts))
      → t.counts ≡ nine 0
      → t.checked ≡ n ∷ n ∷ n ∷ n ∷ n ∷ n ∷ n ∷ n ∷ suc n ∷ []
      → t.visits ≡ suc n
      → IsClean g.cfg.max_attempts (assert (gate_input now s) cmd t)
  unfolding assert
  judge-IsClean s cmd t n h m c k v =
      let same =
        reported_same t.max_attempts cmd.max_attempts g.cfg.max_attempts m
          (decide_ceiling g now (gate_input now s) cmd h).0 in
      let reported = first_reported t.max_attempts cmd.max_attempts in
      let held = invariants_hold g now s cmd h safe reported same in
      (
        same,
        rw c (bump_none (invariants reported (gate_input now s) cmd) (nine 0) held),
        rw (k, v) (bump_all reported (gate_input now s) cmd n),
      )

  inspect-IsClean :
      (k : ℕ) (t : Tally)
      → LawfulKey g.cfg.mandate_cycle_cap k
      → IsClean g.cfg.max_attempts t
      → IsClean g.cfg.max_attempts (inspect (decide false g now) now k t)
  unfolding inspect judge bump
  inspect-IsClean k t l (m, c, e) =
      let s = state_from_key k in
      let answer = decide_lem g now (gate_input now s) (gate_input-IsComplete now s) in
      rw answer (judge-IsClean s _ _ t.visits answer m c (rw e refl) refl)

  edges-All :
      (k : ℕ)
      → LawfulKey g.cfg.mandate_cycle_cap k
      → All (LawfulKey g.cfg.mandate_cycle_cap) (edges (decide false g now) now k)
  unfolding edges following
  edges-All k l =
      let s = state_from_key k in
      let answer = decide_lem g now (gate_input now s) (gate_input-IsComplete now s) in
      rw answer (
        successors-All g now s _ answer (LawfulKey-state g.cfg.mandate_cycle_cap k l)
          (ground (arith, safe.cycle_cap_positive)))

unfaulty_keys :
    (cap : ℤ) (p : State → Bool) (ks : List ℕ)
    → ((s : State) → IsLawful cap s → p s ≡ false)
    → All (LawfulKey cap) ks
    → occurrences p (map state_from_key ks) ≡ 0
unfolding occurrences
unfaulty_keys cap p [] f a = refl
unfaulty_keys cap p (k ∷ ks) f (l, a) =
    rw (f (state_from_key k) (LawfulKey-state cap k l), unfaulty_keys cap p ks f a) refl

abbrev real_gate : ModelConfig → Gate
real_gate c = new none c.gate_config

real_gate-cap :
    (c : ModelConfig)
    → (real_gate c).cfg.mandate_cycle_cap ≡ cap_in_force c.gate_config.mandate_cycle_cap
unfolding new with_defaults
real_gate-cap c = refl

real_gate-IsSafe : (c : ModelConfig) → IsSafe (real_gate c).cfg
unfolding new
real_gate-IsSafe c = with_defaults-IsSafe c.gate_config

gate_in_force-real :
    (c : ModelConfig)
    → c.gate ≡ none
    → gate_in_force c ≡ decide false (real_gate c) (clock_in_force c)
unfolding gate_in_force
gate_in_force-real c real = rw real refl

-- What holds at the end of a run, of any traversal that keeps it.
abbrev Outcome : ModelConfig → Traversal Tally → Type 0
Outcome c t =
    All (LawfulKey (real_gate c).cfg.mandate_cycle_cap) t.visited
    × IsClean (real_gate c).cfg.max_attempts t.tally

exploration-Outcome : (c : ModelConfig) → c.gate ≡ none → Outcome c (exploration c)
unfolding exploration
exploration-Outcome c real =
    let g = real_gate c in
    let now = clock_in_force c in
    let safe = real_gate-IsSafe c in
    let kept =
      run-Kept (edges (decide false g now) now) (inspect (decide false g now) now)
        (bound_in_force c) (LawfulKey g.cfg.mandate_cycle_cap) (IsClean g.cfg.max_attempts)
        (edges-All g now safe) (inspect-IsClean g now safe) seed nothing_yet
        (seed-All g.cfg.mandate_cycle_cap (ground (arith, safe.cycle_cap_positive)))
        (inl refl, refl, refl) in
    rw (gate_in_force-real c real) (kept.admitted, kept.counted)

-- Against the real gate, whatever its configuration, the clock and the bound on the states, the
-- exploration finds no violation of any invariant and no error of the gate, and has checked every
-- invariant, and the gate for errors, as often as it has made a decision.
pub run_context-passes :
    (c : ModelConfig)
    → c.gate ≡ none
    → (passed (run_context c) ≡ true) × ((run_context c).checked ≡ nine (run_context c).decisions)
unfolding run_context report_of sum
run_context-passes c real =
    let (_, (_, counts, checked)) = exploration-Outcome c real in (rw counts refl, checked)

-- The visited keys of a run against the real gate stand for lawful states.
visited-All :
    (c : ModelConfig)
    → c.gate ≡ none
    → All (LawfulKey (cap_in_force c.gate_config.mandate_cycle_cap)) (exploration c).visited
visited-All c real =
    subst (λ (cap : ℤ). All (LawfulKey cap) (exploration c).visited) (real_gate-cap c)
      (exploration-Outcome c real).0

halted_below-lawful : (cap : ℤ) (s : State) → IsLawful cap s → halted_below cap s ≡ false
halted_below-lawful cap s l = elim (Bool-cases s.halted) [
  | inr n ↦ rw n refl
  | inl h ↦ ground (arith, l.halted_at_cap h)
]

skewed-lawful : (cap : ℤ) (s : State) → IsLawful cap s → skewed s ≡ false
skewed-lawful cap s l = elim (Bool-cases (ltb 0 s.attempts)) [
  | inr n ↦ rw n refl
  | inl h ↦ ground (arith, l.on_time (ground arith))
]

-- Against the real gate, whatever its configuration, the clock and the bound on the states, no state
-- that the exploration admits has a mandate halted below the cycle cap in force, and none has made an
-- attempt and still sees a mandate row of the future.
pub run_context-reachability :
    (c : ModelConfig)
    → c.gate ≡ none
    → ((run_context c).reachability.halted_below_cycle_cap ≡ 0)
      × ((run_context c).reachability.post_attempt_clock_skew ≡ 0)
unfolding run_context report_of summarise_reachability
run_context-reachability c real =
    let cap = cap_in_force c.gate_config.mandate_cycle_cap in
    let visited = (exploration c).visited in
    (
      unfaulty_keys cap (halted_below cap) visited (halted_below-lawful cap) (visited-All c real),
      unfaulty_keys cap skewed visited (skewed-lawful cap) (visited-All c real),
    )

histogram_entry :
    (ks : List ℕ) (cap : ℤ) (n m : ℕ)
    → get_elem? (summarise_reachability ks cap).attempt_histogram n ≡ some m
    → m ≡ with_attempts (map state_from_key ks) n
unfolding summarise_reachability
histogram_entry ks cap zero m h = cc
histogram_entry ks cap (suc zero) m h = cc
histogram_entry ks cap (suc (suc zero)) m h = cc
histogram_entry ks cap (suc (suc (suc zero))) m h = cc
histogram_entry ks cap (suc (suc (suc (suc zero)))) m h = cc
histogram_entry ks cap (suc (suc (suc (suc (suc n))))) m h = cc

-- Against the real gate, whatever its configuration, the clock and the bound on the states, the
-- histogram of the attempts counts no state with more attempts than the cycle cap in force.
pub run_context-histogram :
    (c : ModelConfig) (n m : ℕ)
    → c.gate ≡ none
    → get_elem? (run_context c).reachability.attempt_histogram n ≡ some m
    → cap_in_force c.gate_config.mandate_cycle_cap <ℤ pos n
    → m ≡ 0
unfolding run_context report_of with_attempts
run_context-histogram c n m real h over =
    let cap = cap_in_force c.gate_config.mandate_cycle_cap in
    histogram_entry (exploration c).visited c.gate_config.mandate_cycle_cap n m h
    ∙ unfaulty_keys cap (λ (s : State). s.attempts == n) (exploration c).visited
        (λ s l. ground (arith, l.capped)) (visited-All c real)
