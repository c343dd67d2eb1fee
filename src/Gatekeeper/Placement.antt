-- ===== src/Gatekeeper/Placement.antt =====
-- internal/gatekeeper/gatekeeper.go: what Decide promises of a rail morph, of a retry and of an
-- instrument refresh, the actions of one-off payments.
use resilient_mesh_razorpayb.Base.{
  ◌≡◌, sym, ◌∙◌, ◌≢◌, ◌⊎◌, inl, inr, Bool, true, false, arith, Bool-cases, take, ℤ, pos, ◌≤ℤ◌, ◌<ℤ◌,
  ok,
}
use resilient_mesh_razorpayb.Domain.Vocabulary.{
  Action, rail_morph, async_retry, mandate_cascade, abstain, no_rail, rail_from_method,
  FailureClass,
}
use resilient_mesh_razorpayb.Domain.Times.{Time}
use resilient_mesh_razorpayb.Domain.Records.{
  GateInput, SanitizedCommand, TelemetrySnapshot, is_recurring, executable, max_recommended_delay,
}
use resilient_mesh_razorpayb.Gatekeeper.Helpers.{
  morph_target_accepted-Listed, morph_target_accepted, max_rails_considered,
  fallback_backoff_seconds, duration_to_seconds, Listed,
}
use resilient_mesh_razorpayb.Gatekeeper.State.{
  read_proposal, begin, recurring, Gate, Facts, Decision, failing_rail, clamp_attempt,
}
use resilient_mesh_razorpayb.Gatekeeper.Rules.{
  require_session, require_listed_rail, schedule, retry_delay, backoff_seconds,
}
use resilient_mesh_razorpayb.Gatekeeper.MandateRules.{
  impose_cooling, require_notice, cap_afa, respect_halt, cap_cycle, allow_refresh, bound_delay,
}
use resilient_mesh_razorpayb.Gatekeeper.Decide.{
  decide, gather, verdict, command, place, vetoes, mandates, settle,
}
use resilient_mesh_razorpayb.Gatekeeper.Recurring.{Held, verdict-Held}
use resilient_mesh_razorpayb.Gatekeeper.Money.{decide-every}

-- What a decision to morph rests on.
abbrev Morphs : Facts → Decision → Type 0
Morphs f d =
    d.action ≡ rail_morph
    → (f.input.session_active ≡ true)
      × (morph_target_accepted d.rail (failing_rail f) f.input.available_rails ≡ true)
      × (d.delay ≡ pos 0)

-- What a decision to retry rests on.
abbrev Retries : Facts → Decision → Type 0
Retries f d = d.action ≡ async_retry → d.delay ≡ retry_delay f

abbrev Placed : Facts → Decision → Type 0
Placed f d = Morphs f d × Retries f d

place-Placed : (f : Facts) (d : Decision) → Placed f (place f d)
unfolding place require_session require_listed_rail schedule
place-Placed f d = ground arith

module _ (f : Facts) (d : Decision) (p : Placed f d) where
  impose_cooling-Placed : Placed f (impose_cooling f d)
  unfolding impose_cooling
  impose_cooling-Placed = ground arith

  require_notice-Placed : Placed f (require_notice f d)
  unfolding require_notice
  require_notice-Placed = ground arith

  cap_afa-Placed : Placed f (cap_afa f d)
  unfolding cap_afa
  cap_afa-Placed = ground arith

  respect_halt-Placed : Placed f (respect_halt f d)
  unfolding respect_halt
  respect_halt-Placed = ground arith

  cap_cycle-Placed : Placed f (cap_cycle f d)
  unfolding cap_cycle
  cap_cycle-Placed = ground arith

  allow_refresh-Placed : Placed f (allow_refresh f d)
  unfolding allow_refresh
  allow_refresh-Placed = ground arith

placed : (f : Facts) (d : Decision) → Placed f (allow_refresh f (mandates f (place f d)))
unfolding mandates
placed f d = allow_refresh-Placed f _ (
    cap_cycle-Placed f _ (
      respect_halt-Placed f _ (
        cap_afa-Placed f _
          (require_notice-Placed f _ (impose_cooling-Placed f _ (place-Placed f d))))))

bound_delay-Morphs : (f : Facts) (d : Decision) → Morphs f d → Morphs f (bound_delay f d)
unfolding bound_delay executable
bound_delay-Morphs f d h = ground arith

bound_delay-Retries :
    (f : Facts) (d : Decision)
    → pos 0 ≤ℤ retry_delay f
    → retry_delay f ≤ℤ max_recommended_delay
    → Retries f d
    → Retries f (bound_delay f d)
unfolding bound_delay executable
bound_delay-Retries f d lo hi h = ground arith

-- The backoff of the policy engine, as the gate reads it.
abbrev pub policy_wait : Gate → GateInput → ℤ
policy_wait g i =
    backoff_seconds g (clamp_attempt g.cfg i.attempt_number) (read_proposal i).class i.telemetry

backoff_seconds-range :
    (g : Gate) (n : ℤ) (c : FailureClass) (s : TelemetrySnapshot)
    → (pos 0 ≤ℤ backoff_seconds g n c s) × (backoff_seconds g n c s ≤ℤ max_recommended_delay)
unfolding backoff_seconds fallback_backoff_seconds duration_to_seconds
backoff_seconds-range g n c s = ground arith

-- A retry waits for the policy's backoff, or for a longer and schedulable time that was proposed.
abbrev pub Patient : ℤ → ℤ → ℤ → Type 0
Patient wait asked delay =
    (delay ≡ wait) ⊎ ((delay ≡ asked) × (wait <ℤ asked) × (asked ≤ℤ max_recommended_delay))

retry_delay-Patient :
    (g : Gate) (now : Time) (i : GateInput)
    → Patient (policy_wait g i) i.proposal.recommended_delay_sec (retry_delay (gather g now i))
unfolding retry_delay
retry_delay-Patient g now i = ground arith

retry_delay-range :
    (f : Facts) → (pos 0 ≤ℤ retry_delay f) × (retry_delay f ≤ℤ max_recommended_delay)
unfolding retry_delay
retry_delay-range f = ground (
  arith,
  backoff_seconds-range f.gate (clamp_attempt f.gate.cfg f.input.attempt_number) f.reading.class
      f.input.telemetry,
)

verdict-Placed : (f : Facts) → Placed f (verdict f)
unfolding verdict settle
verdict-Placed f =
    let (morphs, retries) = placed f (vetoes f (begin f)) in
    (
      bound_delay-Morphs f _ morphs,
      bound_delay-Retries f _ (retry_delay-range f).0 (retry_delay-range f).1 retries,
    )

-- Morphs and retries are decisions on one-off payments.
one_off_action :
    (f : Facts) (d : Decision) (a : Action)
    → Held f d
    → d.action ≡ a
    → a ≢ abstain
    → a ≢ mandate_cascade
    → ⊥
one_off_action f d a (inl s) e n m = n (sym e ∙ s)
one_off_action f d a (inr c) e n m = m (sym e ∙ c.cascades)

pub not_recurring :
    (f : Facts) (a : Action)
    → (verdict f).action ≡ a
    → a ≢ abstain
    → a ≢ mandate_cascade
    → recurring f ≡ false
not_recurring f a e n m = elim (Bool-cases (recurring f)) [
  | inl r ↦ absurd (one_off_action f (verdict f) a (verdict-Held f r) e n m)
  | inr r ↦ r
]

abbrev MorphOf : GateInput → SanitizedCommand → Type 0
MorphOf i cmd =
    cmd.action ≡ rail_morph
    → (is_recurring i.payment ≡ false)
      × (i.session_active ≡ true)
      × (cmd.delay_seconds ≡ pos 0)
      × Listed cmd.target_rail (take max_rails_considered i.available_rails)
      × (cmd.target_rail ≢ no_rail)
      × (cmd.target_rail ≢ rail_from_method i.payment.method)

command-MorphOf : (f : Facts) → MorphOf f.input (command f (verdict f))
unfolding command
command-MorphOf f e =
    let (session, accepted, delay) = (verdict-Placed f).0 e in
    let (listed, rail, other) = morph_target_accepted-Listed _ _ _ accepted in
    (not_recurring f rail_morph e (λ q. cc) (λ q. cc), session, delay, listed, rail, other)

-- A command to morph is decided for a one-off payment with a live session alone, runs at once, and
-- goes to a rail that is among the first 32 entries of the merchant's list, is a rail, and is not
-- the one that just failed.
pub decide_morph :
    (cancelled : Bool) (g : Gate) (now : Time) (i : GateInput) (cmd : SanitizedCommand)
    → decide cancelled g now i ≡ ok cmd
    → cmd.action ≡ rail_morph
    → (is_recurring i.payment ≡ false)
      × (i.session_active ≡ true)
      × (cmd.delay_seconds ≡ pos 0)
      × Listed cmd.target_rail (take max_rails_considered i.available_rails)
      × (cmd.target_rail ≢ no_rail)
      × (cmd.target_rail ≢ rail_from_method i.payment.method)
decide_morph cancelled g now i cmd h =
    decide-every (MorphOf i) cancelled g now i cmd h (command-MorphOf (gather g now i))

abbrev RetryOf : Gate → GateInput → SanitizedCommand → Type 0
RetryOf g i cmd =
    cmd.action ≡ async_retry
    → (is_recurring i.payment ≡ false)
      × (policy_wait g i ≤ℤ cmd.delay_seconds)
      × Patient (policy_wait g i) i.proposal.recommended_delay_sec cmd.delay_seconds

command-RetryOf :
    (g : Gate) (now : Time) (i : GateInput)
    → RetryOf g i (command (gather g now i) (verdict (gather g now i)))
unfolding command
command-RetryOf g now i e =
    let same = (verdict-Placed (gather g now i)).1 e in
    let patient = retry_delay-Patient g now i in
    (
      not_recurring (gather g now i) async_retry e (λ q. cc) (λ q. cc),
      rw same (ground arith),
      rw same patient,
    )

-- A retry is decided for a one-off payment alone, waits at least the policy's backoff, and any
-- other wait than that is a longer one that the proposal asked for, of at most one week.
pub decide_retry :
    (cancelled : Bool) (g : Gate) (now : Time) (i : GateInput) (cmd : SanitizedCommand)
    → decide cancelled g now i ≡ ok cmd
    → cmd.action ≡ async_retry
    → (is_recurring i.payment ≡ false)
      × (policy_wait g i ≤ℤ cmd.delay_seconds)
      × Patient (policy_wait g i) i.proposal.recommended_delay_sec cmd.delay_seconds
decide_retry cancelled g now i cmd h =
    decide-every (RetryOf g i) cancelled g now i cmd h (command-RetryOf g now i)
