-- ===== src/Modelcheck/Passing.antt =====
-- internal/modelcheck/invariants.go against internal/gatekeeper: the gate passes the checks on every
-- input of the abstract space.
use resilient_mesh_razorpayb.Base.{
  ◌*◌, ◌≡◌, refl, ◌≢◌, ◌⊎◌, inl, inr, true, false, arith, Bool-cases, list_eq_refl, ℤ, pos,
  pos_part, ◌+ℤ◌, ◌≤ℤ◌, ltb_ℤ, eqb_ℤ, ok,
}
use resilient_mesh_razorpayb.Domain.Vocabulary.{
  async_retry, upi_intent, upi_collect, netbanking, wallet, Action, valid_rail, valid_action,
  action_name, rail_name, no_rail, card, rail_morph, instrument_refresh, abstain, mandate_cascade,
  Rail, rail_from_method,
}
use resilient_mesh_razorpayb.Domain.Taxonomy.{afa_ceiling_paisa}
use resilient_mesh_razorpayb.Domain.Times.{Time, second}
use resilient_mesh_razorpayb.Domain.Records.{
  GateInput, SanitizedCommand, is_recurring, executable, max_recommended_delay,
}
use resilient_mesh_razorpayb.Gatekeeper.Config.{IsSafe}
use resilient_mesh_razorpayb.Gatekeeper.Helpers.{rail_eq, rail_eq-eq, rail_eq_refl}
use resilient_mesh_razorpayb.Gatekeeper.State.{Gate, is_refresh, clamp_attempt}
use resilient_mesh_razorpayb.Gatekeeper.MandateRules.{category_of}
use resilient_mesh_razorpayb.Gatekeeper.Decide.{decide, command}
use resilient_mesh_razorpayb.Gatekeeper.Money.{decide-money, decide-every}
use resilient_mesh_razorpayb.Gatekeeper.Bounds.{decide_schedule, decide_idle, clamp_attempt-range}
use resilient_mesh_razorpayb.Gatekeeper.Recurring.{decide_recurring, required_wait-floor}
use resilient_mesh_razorpayb.Gatekeeper.Placement.{decide_morph}
use resilient_mesh_razorpayb.Gatekeeper.OwnRail.{decide_own_rail}
use resilient_mesh_razorpayb.Gatekeeper.Refresh.{decide_refresh}
use resilient_mesh_razorpayb.Gatekeeper.Stops.{decide_stops, above_afa_ceiling}
use resilient_mesh_razorpayb.Modelcheck.Checks.{
  amount_pinned, recurring_cooling, attempt_cap, ceiling_of_text, category_text, afa_ceiling,
  closed_action_set, refresh_preserves_terms, executable_names_rail, saturated_seconds,
  schedule_bounded,
}

eqb_ℤ_refl : (a : ℤ) → eqb_ℤ a a ≡ true
eqb_ℤ_refl a = ground arith

valid_action_name : (a : Action) → valid_action (action_name a) ≡ true
unfolding valid_action action_name
valid_action_name rail_morph = refl
valid_action_name async_retry = refl
valid_action_name mandate_cascade = refl
valid_action_name instrument_refresh = refl
valid_action_name abstain = refl

valid_rail_name : (r : Rail) → valid_rail (rail_name r) ≡ true
unfolding valid_rail rail_name
valid_rail_name upi_intent = refl
valid_rail_name upi_collect = refl
valid_rail_name card = refl
valid_rail_name netbanking = refl
valid_rail_name wallet = refl
valid_rail_name no_rail = refl

-- The ceiling of a decided command is the gate's.
abbrev pub Ceilinged : Gate → GateInput → SanitizedCommand → Type 0
Ceilinged g i cmd =
    (cmd.max_attempts ≡ g.cfg.max_attempts)
    × (cmd.attempt_number ≡ clamp_attempt g.cfg i.attempt_number)

pub decide_ceiling :
    (g : Gate) (now : Time) (i : GateInput) (cmd : SanitizedCommand)
    → decide false g now i ≡ ok cmd
    → Ceilinged g i cmd
unfolding command
decide_ceiling g now i cmd h = decide-every (Ceilinged g i) false g now i cmd h (refl, refl)

saturated_exact :
    (d : ℤ)
    → pos 0 ≤ℤ d
    → d ≤ℤ max_recommended_delay
    → saturated_seconds d ≡ pos (pos_part d * second)
unfolding saturated_seconds
saturated_exact d lo hi = ground arith

morph_or_not : (a : Action) → (a ≡ rail_morph) ⊎ (a ≢ rail_morph)
morph_or_not rail_morph = inl refl
morph_or_not async_retry = inr (λ e. cc)
morph_or_not mandate_cascade = inr (λ e. cc)
morph_or_not instrument_refresh = inr (λ e. cc)
morph_or_not abstain = inr (λ e. cc)

refreshing : (a : Action) → is_refresh a ≡ true → a ≡ instrument_refresh
refreshing a h = ground arith

unequal : (r s : Rail) → r ≢ s → rail_eq r s ≡ false
unequal r s n = elim (Bool-cases (rail_eq r s)) [
  | inl e ↦ absurd (n (rail_eq-eq r s e))
  | inr e ↦ e
]

pub not_abstaining : (a : Action) → executable a ≡ true → a ≡ abstain → ⊥
unfolding executable
not_abstaining a x e = ground arith

module _ (g : Gate) (now : Time) (i : GateInput) (cmd : SanitizedCommand)
    (h : decide false g now i ≡ ok cmd) where
  pub amount_pinned_holds : amount_pinned i cmd ≡ true
  unfolding amount_pinned
  amount_pinned_holds =
      let (a, c, _, _, _) = decide-money false g now i cmd h in
      rw (a, c) (rw (eqb_ℤ_refl i.payment.amount, list_eq_refl i.payment.currency) refl)

  pub recurring_cooling_holds : IsSafe g.cfg → recurring_cooling i cmd ≡ true
  unfolding recurring_cooling
  recurring_cooling_holds s = elim (Bool-cases (is_recurring i.payment)) [
    | inr n ↦ rw n refl
    | inl r ↦ elim (Bool-cases (executable cmd.action)) [
      | inr n ↦ rw (r, n) refl
      | inl x ↦
          let (_, _, notice, wait, _) = decide_recurring false g now i cmd h r x in
          ground (arith, required_wait-floor g.cfg i.mandate now s)
    ]
  ]

  pub attempt_cap_holds :
      IsSafe g.cfg
      → (reported : ℤ) → (reported ≡ pos 0) ⊎ (reported ≡ g.cfg.max_attempts)
      → attempt_cap reported cmd ≡ true
  unfolding attempt_cap
  attempt_cap_holds s reported r =
      let (m, n) = decide_ceiling g now i cmd h in
      let (lo, hi) = clamp_attempt-range g.cfg i.attempt_number s in
      rw (m, n) (ground (arith, s.attempts_positive))

  within_ceiling :
      afa_ceiling_paisa (category_of i.mandate) ≡ ceiling_of_text (category_text i.mandate)
      → is_recurring i.payment ≡ true
      → executable cmd.action ≡ true
      → ltb_ℤ (ceiling_of_text (category_text i.mandate)) i.payment.amount ≡ false
  within_ceiling e r x =
      elim (Bool-cases (ltb_ℤ (ceiling_of_text (category_text i.mandate)) i.payment.amount)) [
        | inr n ↦ n
        | inl over ↦ absurd (
            not_abstaining cmd.action x
              (decide_stops false g now i cmd h (above_afa_ceiling r (rw e (ground arith)))))
      ]

  pub afa_ceiling_holds :
      afa_ceiling_paisa (category_of i.mandate) ≡ ceiling_of_text (category_text i.mandate)
      → afa_ceiling i cmd ≡ true
  unfolding afa_ceiling
  afa_ceiling_holds e = elim (Bool-cases (is_recurring i.payment)) [
    | inr n ↦ rw n refl
    | inl r ↦ elim (Bool-cases (executable cmd.action)) [
      | inr n ↦ rw (r, n) refl
      | inl x ↦ rw (r, x, (decide-money false g now i cmd h).0) (rw (within_ceiling e r x) refl)
    ]
  ]

  pub closed_action_set_holds : closed_action_set cmd ≡ true
  unfolding closed_action_set
  closed_action_set_holds = rw (valid_action_name cmd.action, valid_rail_name cmd.target_rail) refl

  idle_now : (executable cmd.action ≡ true) ⊎ (eqb_ℤ cmd.delay_seconds (pos 0) ≡ true)
  idle_now = elim (Bool-cases (executable cmd.action)) [
    | inl x ↦ inl x
    | inr n ↦ inr (rw ((decide_idle false g now i cmd h n).0) refl)
  ]

  pub schedule_bounded_holds : schedule_bounded cmd ≡ true
  unfolding schedule_bounded saturated_seconds
  schedule_bounded_holds =
      let (lo, hi, decided, due) = decide_schedule false g now i cmd h in
      let seconds = saturated_exact cmd.delay_seconds lo hi in
      rw (decided, due, seconds)
        (rw (eqb_ℤ_refl (now +ℤ pos (pos_part cmd.delay_seconds * second)))
          (ground (arith, idle_now)))

  module _ (on_card : rail_from_method i.payment.method ≡ card) where
    named_rail : executable cmd.action ≡ true → rail_eq cmd.target_rail no_rail ≡ false
    named_rail x = elim (morph_or_not cmd.action) [
      | inl m ↦
          let (_, _, _, _, named, _) = decide_morph false g now i cmd h m in
          unequal cmd.target_rail no_rail named
      | inr n ↦
          rw (decide_own_rail false g now i cmd h x n, on_card) (unequal card no_rail (λ e. cc))
    ]

    pub executable_names_rail_holds : executable_names_rail cmd ≡ true
    unfolding executable_names_rail
    executable_names_rail_holds = elim (Bool-cases (executable cmd.action)) [
      | inr n ↦ rw n refl
      | inl x ↦ rw (x, named_rail x, valid_rail_name cmd.target_rail) refl
    ]

    pub refresh_preserves_terms_holds : refresh_preserves_terms i cmd ≡ true
    unfolding refresh_preserves_terms
    refresh_preserves_terms_holds = elim (Bool-cases (is_refresh cmd.action)) [
      | inr n ↦ rw n refl
      | inl r ↦
          let (_, rail, _, _) = decide_refresh false g now i cmd h (refreshing cmd.action r) in
          let (a, c, _, _, _) = decide-money false g now i cmd h in
          rw (r, a, c, rail, on_card)
            (rw (eqb_ℤ_refl i.payment.amount, list_eq_refl i.payment.currency, rail_eq_refl card)
              (ground arith))
    ]
