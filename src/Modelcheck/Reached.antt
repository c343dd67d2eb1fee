-- ===== src/Modelcheck/Reached.antt =====
-- internal/modelcheck/bfs.go: what every state that the transition relation enters has in common, for
-- the commands of the gate.
use resilient_mesh_razorpayb.Base.{
  ℕ, zero, suc, ◌+◌, ◌≤◌, ◌<◌, ◌≡◌, refl, inl, inr, Bool, true, false, not, ◌&&◌, ◌||◌, List, [],
  ◌∷◌, ◌++◌, map, arith, ◌==◌, if◌then◌else◌, Bool-cases, All, ℤ, pos, ◌≤ℤ◌, leb_ℤ, ok,
}
use resilient_mesh_razorpayb.Domain.Times.{Time}
use resilient_mesh_razorpayb.Domain.Records.{SanitizedCommand, executable}
use resilient_mesh_razorpayb.Gatekeeper.State.{Gate}
use resilient_mesh_razorpayb.Gatekeeper.Decide.{decide, requires_mandate_halt}
use resilient_mesh_razorpayb.Gatekeeper.Stops.{decide_stops, cycle_capped}
use resilient_mesh_razorpayb.Gatekeeper.Trail.{decide_trail}
use resilient_mesh_razorpayb.Modelcheck.Space.{
  hour_zero_index, proposals, State, at, key, breaker_successors,
}
use resilient_mesh_razorpayb.Modelcheck.Keys.{IsIndexed}
use resilient_mesh_razorpayb.Modelcheck.Input.{gate_input, mandate}
use resilient_mesh_razorpayb.Modelcheck.Successors.{
  count_from, executed, halt, own_step, later, breaker_moves, diagnoses, notices, new_cycles, moves,
  append_states, state_eq, successors,
}
use resilient_mesh_razorpayb.Modelcheck.Keeps.{All-append, sort_keys-All}
use resilient_mesh_razorpayb.Modelcheck.Passing.{not_abstaining}

-- A state of the space, in which the attempts are within the cycle cap, a mandate is halted at the cap
-- alone, and no attempt has been made in the future.
pub record IsLawful (cap : ℤ) (s : State) : Type 0 where
  pub indexed : IsIndexed s
  pub capped : pos s.attempts ≤ℤ cap
  pub halted_at_cap : s.halted ≡ true → cap ≤ℤ pos s.attempts
  pub on_time : 1 ≤ s.attempts → 2 ≤ s.hours

count_from-All :
    (P : State → Type 0) (f : ℕ → State) (i n : ℕ)
    → ((j : ℕ) → i ≤ j → j < i + n → P (f j))
    → All P (map f (count_from i n))
unfolding count_from
count_from-All P f i zero h = tt
count_from-All P f i (suc n) h = (
  h i (omega arith) (omega arith),
  count_from-All P f (suc i) n (λ j a b. h j (omega arith) (omega arith)),
)

pub map-All :
    (Q : ℕ → Type 0) (P : State → Type 0) (f : ℕ → State) (xs : List ℕ)
    → All Q xs
    → ((j : ℕ) → Q j → P (f j))
    → All P (map f xs)
map-All Q P f [] q h = tt
map-All Q P f (x ∷ xs) (q, qs) h = (h x q, map-All Q P f xs qs h)

-- A list that is there under a condition.
only_if :
    (P : State → Type 0) (b : Bool) (xs : List State)
    → (b ≡ true → All P xs)
    → All P (if b then xs else [])
only_if P true xs h = h refl
only_if P false xs h = tt

breaker_successors-All : (b : ℕ) → All (λ (j : ℕ). j < 3) (at [] breaker_successors b)
breaker_successors-All zero = (omega arith, tt)
breaker_successors-All (suc zero) = (omega arith, tt)
breaker_successors-All (suc (suc zero)) = (omega arith, (omega arith, tt))
breaker_successors-All (suc (suc (suc b))) = tt

module _ (cap : ℤ) (s : State) (l : IsLawful cap s) where
  later-All : All (IsLawful cap) (later s)
  later-All = count_from-All (IsLawful cap) _ _ _ (λ j a b. record {
    indexed = ground (arith, l.indexed);
    capped = l.capped;
    halted_at_cap = l.halted_at_cap;
    on_time = λ h. omega (arith, l.on_time h);
  })

  breaker_moves-All : All (IsLawful cap) (breaker_moves s)
  breaker_moves-All = map-All _ (IsLawful cap) _ _ (breaker_successors-All s.breaker) (λ j h.
      record {
        indexed = ground (arith, l.indexed);
        capped = l.capped;
        halted_at_cap = l.halted_at_cap;
        on_time = l.on_time;
      })

  proposed-IsLawful : (p : ℕ) → p < 7 → IsLawful cap (record s { proposal = p })
  proposed-IsLawful p h = record {
    indexed = ground (arith, l.indexed);
    capped = l.capped;
    halted_at_cap = l.halted_at_cap;
    on_time = l.on_time;
  }

  delayed-IsLawful : (d : ℕ) → d < 4 → IsLawful cap (record s { delay = d })
  delayed-IsLawful d h = record {
    indexed = ground (arith, l.indexed);
    capped = l.capped;
    halted_at_cap = l.halted_at_cap;
    on_time = l.on_time;
  }

  diagnoses-All : All (IsLawful cap) (diagnoses s)
  unfolding proposals
  diagnoses-All =
      All-append (IsLawful cap) _ _
        (count_from-All (IsLawful cap) _ 0 7 (λ p a b. proposed-IsLawful p b))
        (count_from-All (IsLawful cap) _ 0 4 (λ d a b. delayed-IsLawful d b))

  notices-All : All (IsLawful cap) (notices s)
  notices-All = elim (Bool-cases s.notified) [
    | inl n ↦ rw n tt
    | inr n ↦ rw n (
      record {
        indexed = l.indexed;
        capped = l.capped;
        halted_at_cap = l.halted_at_cap;
        on_time = l.on_time;
      },
      tt,
    )
  ]

  new_cycles-All : pos 0 ≤ℤ cap → All (IsLawful cap) (new_cycles s)
  new_cycles-All c =
      only_if (IsLawful cap)
        (s.recurring
          && not s.halted
          && (not (s.attempts == 0) || s.notified || not (s.hours == hour_zero_index)))
        (record s { attempts = 0; notified = false; hours = hour_zero_index } ∷ [])
        (λ fresh. (
          record {
            indexed = ground (arith, l.indexed);
            capped = c;
            halted_at_cap = λ h. ground arith;
            on_time = λ h. omega arith;
          },
          tt,
        ))

  session-IsLawful : IsLawful cap (record s { session_live = not s.session_live })
  session-IsLawful = record {
    indexed = l.indexed;
    capped = l.capped;
    halted_at_cap = l.halted_at_cap;
    on_time = l.on_time;
  }

module _ (g : Gate) (now : Time) (s : State) (cmd : SanitizedCommand)
    (h : decide false g now (gate_input now s) ≡ ok cmd) where
  -- The gate lets no command be executed in a cycle without attempts left.
  has_room : executable cmd.action ≡ true → pos (suc s.attempts) ≤ℤ g.cfg.mandate_cycle_cap
  unfolding gate_input mandate
  has_room x = elim (Bool-cases (leb_ℤ g.cfg.mandate_cycle_cap (pos s.attempts))) [
    | inr n ↦ ground arith
    | inl c ↦ absurd (
        not_abstaining cmd.action x
          (decide_stops false g now _ cmd h (cycle_capped (mandate now s) refl (ground arith))))
  ]

  halts_at_cap : requires_mandate_halt cmd ≡ true → g.cfg.mandate_cycle_cap ≤ℤ pos s.attempts
  unfolding gate_input mandate
  halts_at_cap r = let (_, _, e) = decide_trail false g now _ cmd h in ground arith

  module _ (l : IsLawful g.cfg.mandate_cycle_cap s) where
    executed-IsLawful : IsLawful g.cfg.mandate_cycle_cap (executed cmd s)
    unfolding executed
    executed-IsLawful = elim (Bool-cases (executable cmd.action)) [
      | inr n ↦ rw n l
      | inl x ↦
          let room = has_room x in
          rw x (record {
            indexed = ground (arith, l.indexed);
            capped = ground (arith, l.capped);
            halted_at_cap = λ q. ground (arith, l.halted_at_cap q);
            on_time = λ q. omega arith;
          })
    ]

    executed_grows : s.attempts ≤ (executed cmd s).attempts
    unfolding executed
    executed_grows = ground arith

    own_step-IsLawful : IsLawful g.cfg.mandate_cycle_cap (own_step cmd s)
    unfolding halt
    own_step-IsLawful =
        let e = executed-IsLawful in
        elim (Bool-cases (requires_mandate_halt cmd)) [
          | inr n ↦ rw n e
          | inl r ↦ rw r (record {
            indexed = e.indexed;
            capped = e.capped;
            halted_at_cap = λ q. omega (arith, halts_at_cap r, executed_grows);
            on_time = e.on_time;
          })
        ]

    moves-All :
        pos 0 ≤ℤ g.cfg.mandate_cycle_cap → All (IsLawful g.cfg.mandate_cycle_cap) (moves cmd s)
    unfolding moves
    moves-All c =
        let cap = g.cfg.mandate_cycle_cap in
        let P = IsLawful cap in
        let first = own_step cmd s ∷ later s in
        let second = first ++ breaker_moves s in
        let asked = record s { session_live = not s.session_live } ∷ diagnoses s in
        All-append P (second ++ asked ++ notices s) (new_cycles s)
          (All-append P (second ++ asked) (notices s)
            (All-append P second asked
              (All-append P first (breaker_moves s) (own_step-IsLawful, later-All cap s l)
                (breaker_moves-All cap s l))
              (session-IsLawful cap s l, diagnoses-All cap s l))
            (notices-All cap s l))
          (new_cycles-All cap s l c)

-- The keys of lawful states.
abbrev pub LawfulKey : ℤ → ℕ → Type 0
LawfulKey cap k = (s : State) × IsLawful cap s × (key s ≡ k)

append_states-All :
    (cap : ℤ) (s : State) (ts : List State)
    → All (IsLawful cap) ts
    → All (LawfulKey cap) (append_states s ts)
unfolding append_states
append_states-All cap s [] a = tt
append_states-All cap s (t ∷ ts) (h, a) = elim (Bool-cases (state_eq t s)) [
  | inl e ↦ rw e (append_states-All cap s ts a)
  | inr e ↦ rw e ((t, h, refl), append_states-All cap s ts a)
]

pub successors-All :
    (g : Gate) (now : Time) (s : State) (cmd : SanitizedCommand)
    → decide false g now (gate_input now s) ≡ ok cmd
    → IsLawful g.cfg.mandate_cycle_cap s
    → pos 0 ≤ℤ g.cfg.mandate_cycle_cap
    → All (LawfulKey g.cfg.mandate_cycle_cap) (successors cmd s)
unfolding successors
successors-All g now s cmd h l c =
    sort_keys-All (LawfulKey g.cfg.mandate_cycle_cap) _
      (append_states-All g.cfg.mandate_cycle_cap s _ (moves-All g now s cmd h l c))
