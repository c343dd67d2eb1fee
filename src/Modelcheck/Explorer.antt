-- ===== src/Modelcheck/Explorer.antt =====
-- internal/modelcheck/bfs.go: the run, with the gate under test as a parameter: the explorer's tallies,
-- the visits, and the report. Witnesses, texts and the digest are for a reader and are left out.
use resilient_mesh_razorpayb.Base.{
  ℕ, suc, ◌+◌, ◌*◌, Bool, true, false, not, ◌&&◌, Option, none, some, List, [], ◌∷◌, map, ltb, ◌==◌,
  if◌then◌else◌, length, ℤ, pos, pos_part, ◌-ℤ◌, ltb_ℤ, leb_ℤ, eqb_ℤ, Result, ok, err,
}
use resilient_mesh_razorpayb.Domain.Times.{Time}
use resilient_mesh_razorpayb.Domain.Records.{GateInput, SanitizedCommand}
use resilient_mesh_razorpayb.Gatekeeper.Config.{Config, default_mandate_cycle_cap}
use resilient_mesh_razorpayb.Gatekeeper.Decide.{GateError, decide, new}
use resilient_mesh_razorpayb.Modelcheck.Space.{
  State, state_from_key, abstract_state_count, hour_zero_index,
}
use resilient_mesh_razorpayb.Modelcheck.Input.{gate_input}
use resilient_mesh_razorpayb.Modelcheck.Successors.{seed, successors}
use resilient_mesh_razorpayb.Modelcheck.Checks.{invariants}
use resilient_mesh_razorpayb.Modelcheck.Search.{Traversal, run}

-- The explorer's counters: for each invariant, and last for the gate's own errors, how often it was
-- checked and how often it failed.
pub record Tally : Type 0 where
  pub max_attempts : ℤ
  pub checked : List ℕ
  pub counts : List ℕ
  pub visits : ℕ

-- One more where the test says so.
unfoldable pub bump : List Bool → List ℕ → List ℕ
bump [] ns = ns
bump (b ∷ bs) [] = []
bump (b ∷ bs) (n ∷ ns) = (if b then suc n else n) ∷ bump bs ns

-- The entry of the gate's errors, after those of the eight invariants.
abbrev error_slot : Bool → List Bool
error_slot b = false ∷ false ∷ false ∷ false ∷ false ∷ false ∷ false ∷ false ∷ b ∷ []

-- The ceiling of the first command that carries one.
unfoldable pub first_reported : ℤ → ℤ → ℤ
first_reported old ceiling = if eqb_ℤ old (pos 0) && ltb_ℤ (pos 0) ceiling then ceiling else old

-- explorer.assert
unfoldable pub assert : GateInput → SanitizedCommand → Tally → Tally
unfolding bump
assert i cmd t =
    let reported = first_reported t.max_attempts cmd.max_attempts in
    let held = invariants reported i cmd in
    record t {
      max_attempts = reported;
      checked = bump (map (λ (b : Bool). true) held) t.checked;
      counts = bump (map not held) t.counts;
    }

abbrev pub Judge : Type 0
Judge = GateInput → Result GateError SanitizedCommand

-- The assertions on what the gate answered.
unfoldable pub judge : GateInput → Result GateError SanitizedCommand → Tally → Tally
judge i (err e) t = record t { counts = bump (error_slot true) t.counts }
judge i (ok cmd) t = assert i cmd t

-- The visit of a state, up to its successors.
unfoldable pub inspect : Judge → Time → ℕ → Tally → Tally
inspect gate now k t =
    let i = gate_input now (state_from_key k) in
    judge i (gate i)
      (record t { visits = suc t.visits; checked = bump (error_slot true) t.checked })

unfoldable pub following : State → Result GateError SanitizedCommand → List ℕ
following s (err e) = []
following s (ok cmd) = successors cmd s

-- The states entered from one; a state the gate fails on is terminal.
unfoldable pub edges : Judge → Time → ℕ → List ℕ
edges gate now k = let s = state_from_key k in following s (gate (gate_input now s))

pub record Reachability : Type 0 where
  pub attempt_histogram : List ℕ
  pub halted_states : ℕ
  pub halted_below_cycle_cap : ℕ
  pub post_attempt_clock_skew : ℕ

unfoldable pub occurrences : {A : Type 0} → (A → Bool) → List A → ℕ
occurrences p [] = 0
occurrences p (x ∷ xs) = (if p x then 1 else 0) + occurrences p xs

abbrev pub halted_below : ℤ → State → Bool
halted_below cap s = s.halted && ltb_ℤ (pos s.attempts) cap

abbrev pub skewed : State → Bool
skewed s = ltb 0 s.attempts && ltb s.hours hour_zero_index

abbrev pub cap_in_force : ℤ → ℤ
cap_in_force cap = if leb_ℤ cap (pos 0) then default_mandate_cycle_cap else cap

unfoldable pub with_attempts : List State → ℕ → ℕ
unfolding occurrences
with_attempts states n = occurrences (λ (s : State). s.attempts == n) states

-- summariseReachability
unfoldable pub summarise_reachability : List ℕ → ℤ → Reachability
unfolding occurrences with_attempts
summarise_reachability visited cycle_cap =
    let states = map state_from_key visited in
    record {
      attempt_histogram =
          with_attempts states 0
          ∷ with_attempts states 1
          ∷ with_attempts states 2
          ∷ with_attempts states 3
          ∷ with_attempts states 4
          ∷ [];
      halted_states = occurrences (λ (s : State). s.halted) states;
      halted_below_cycle_cap = occurrences (halted_below (cap_in_force cycle_cap)) states;
      post_attempt_clock_skew = occurrences skewed states;
    }

-- Config, with the zero time as none, and without the bound on the witnesses.
pub record ModelConfig : Type 0 where
  pub clock_at : Option Time
  pub max_states : ℤ
  pub gate_config : Config
  pub gate : Option (Time → Judge)

-- The start of 2026.
abbrev default_clock_at : Time
default_clock_at = pos (1_767_225_600 * 1_000_000_000)

abbrev pub clock_in_force : ModelConfig → Time
clock_in_force c = elim c.clock_at [ none ↦ default_clock_at | some t ↦ t ]

abbrev pub bound_in_force : ModelConfig → ℕ
bound_in_force c = if leb_ℤ c.max_states (pos 0) then 4_000_000 else pos_part c.max_states

-- The gate under test: the real one, without a policy engine, where none is given.
unfoldable pub gate_in_force : ModelConfig → Judge
gate_in_force c = elim c.gate [
  | none ↦ decide false (new none c.gate_config) (clock_in_force c)
  | some gate ↦ gate (clock_in_force c)
]

pub record Report : Type 0 where
  pub initial_states : ℕ
  pub reachable_states : ℕ
  pub unreached_states : ℤ
  pub transitions : ℕ
  pub decisions : ℕ
  pub reported_max_attempts : ℤ
  pub bounded : Bool
  pub total_violations : ℕ
  pub reachability : Reachability
  pub checked : List ℕ
  pub violations : List ℕ

unfoldable pub sum : List ℕ → ℕ
sum [] = 0
sum (n ∷ ns) = n + sum ns

abbrev pub nothing_yet : Tally
nothing_yet = record {
  max_attempts = pos 0;
  checked = 0 ∷ 0 ∷ 0 ∷ 0 ∷ 0 ∷ 0 ∷ 0 ∷ 0 ∷ 0 ∷ [];
  counts = 0 ∷ 0 ∷ 0 ∷ 0 ∷ 0 ∷ 0 ∷ 0 ∷ 0 ∷ 0 ∷ [];
  visits = 0;
}

-- The exploration of RunContext.
unfoldable pub exploration : ModelConfig → Traversal Tally
exploration c =
    let gate = gate_in_force c in
    let now = clock_in_force c in
    run (edges gate now) (inspect gate now) (bound_in_force c) seed nothing_yet

unfoldable pub report_of : ModelConfig → Traversal Tally → Report
unfolding sum
report_of c t = record {
  initial_states = length seed;
  reachable_states = length t.visited;
  unreached_states = pos abstract_state_count -ℤ pos (length t.visited);
  transitions = t.transitions;
  decisions = t.tally.visits;
  reported_max_attempts = t.tally.max_attempts;
  bounded = t.bounded;
  total_violations = sum t.tally.counts;
  reachability = summarise_reachability t.visited c.gate_config.mandate_cycle_cap;
  checked = t.tally.checked;
  violations = t.tally.counts;
}

-- RunContext, with a context that is not cancelled.
unfoldable pub run_context : ModelConfig → Report
run_context c = report_of c (exploration c)

-- Report.Passed and Report.Complete
abbrev pub passed : Report → Bool
passed r = r.total_violations == 0

abbrev pub complete : Report → Bool
complete r = not r.bounded
