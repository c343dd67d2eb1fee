-- ===== src/Gatekeeper/Recurring.antt =====
-- internal/gatekeeper/gatekeeper.go: what Decide promises of a payment that belongs to a mandate.
use resilient_mesh_razorpayb.Base.{
  ◌*◌, ◌≡◌, ◌⊎◌, Bool, true, Option, none, some, arith, ℤ, pos, pos_part, ◌+ℤ◌, ◌≤ℤ◌, ◌<ℤ◌,
  int_laws, ok,
}
use resilient_mesh_razorpayb.Domain.Vocabulary.{mandate_cascade, rail_from_method}
use resilient_mesh_razorpayb.Domain.Times.{max_duration, time_sub_lower, Time, second, time_sub}
use resilient_mesh_razorpayb.Domain.Records.{
  GateInput, MandateRecord, SanitizedCommand, is_recurring, executable, max_recommended_delay,
}
use resilient_mesh_razorpayb.Gatekeeper.Config.{Config, IsSafe}
use resilient_mesh_razorpayb.Gatekeeper.Helpers.{seconds_until}
use resilient_mesh_razorpayb.Gatekeeper.State.{Gate, Facts, Decision, failing_rail}
use resilient_mesh_razorpayb.Gatekeeper.MandateRules.{
  required_wait, impose_cooling, require_notice, cap_afa, respect_halt, cap_cycle, allow_refresh,
  bound_delay,
}
use resilient_mesh_razorpayb.Gatekeeper.Decide.{decide, gather, verdict, command, mandates, settle}
use resilient_mesh_razorpayb.Gatekeeper.Bounds.{decide_schedule}
use resilient_mesh_razorpayb.Gatekeeper.Money.{decide-every}
use resilient_mesh_razorpayb.Gatekeeper.Sticky.{Stopped}

-- The state of a recurring debit that the cooling rule has let through.
pub record Cooled (f : Facts) (d : Decision) : Type 0 where
  pub cascades : d.action ≡ mandate_cascade
  pub own_rail : d.rail ≡ failing_rail f
  pub notified : d.pre_debit ≡ true
  pub waits : required_wait f.gate.cfg f.input.mandate f.now ≤ℤ d.delay
  pub schedulable : required_wait f.gate.cfg f.input.mandate f.now ≤ℤ max_recommended_delay

abbrev pub Held : Facts → Decision → Type 0
Held f d = Stopped d ⊎ Cooled f d

module _ (f : Facts) (d : Decision) where
  impose_cooling-Held : is_recurring f.input.payment ≡ true → Held f (impose_cooling f d)
  unfolding impose_cooling
  impose_cooling-Held r = ground arith

  require_notice-Held : Held f d → Held f (require_notice f d)
  unfolding require_notice
  require_notice-Held h = ground arith

  cap_afa-Held : Held f d → Held f (cap_afa f d)
  unfolding cap_afa
  cap_afa-Held h = ground arith

  respect_halt-Held : Held f d → Held f (respect_halt f d)
  unfolding respect_halt
  respect_halt-Held h = ground arith

  cap_cycle-Held : Held f d → Held f (cap_cycle f d)
  unfolding cap_cycle
  cap_cycle-Held h = ground arith

  allow_refresh-Held : Held f d → Held f (allow_refresh f d)
  unfolding allow_refresh
  allow_refresh-Held h = ground arith

  bound_delay-Held : Held f d → Held f (bound_delay f d)
  unfolding bound_delay executable
  bound_delay-Held h = ground arith

ruleset holding = (
  require_notice-Held, cap_afa-Held, respect_halt-Held, cap_cycle-Held, allow_refresh-Held,
  bound_delay-Held,
)

pub verdict-Held : (f : Facts) → is_recurring f.input.payment ≡ true → Held f (verdict f)
unfolding verdict settle mandates
verdict-Held f r = search (holding, impose_cooling-Held) depth 8

-- What an executable command says of a recurring debit.
abbrev CascadeOf : Gate → Time → GateInput → SanitizedCommand → Type 0
CascadeOf g now i cmd =
    executable cmd.action ≡ true
    → (cmd.action ≡ mandate_cascade)
      × (cmd.target_rail ≡ rail_from_method i.payment.method)
      × (cmd.pre_debit_notification_needed ≡ true)
      × (required_wait g.cfg i.mandate now ≤ℤ cmd.delay_seconds)
      × (required_wait g.cfg i.mandate now ≤ℤ max_recommended_delay)

command-CascadeOf :
    (f : Facts) (d : Decision) → Held f d → CascadeOf f.gate f.now f.input (command f d)
unfolding command executable
command-CascadeOf f d h x = ground arith

-- A command that is executable, for a payment with a subscription or an invoice, is a compliant
-- cascade on the rail of the payment, asks for the pre-debit notice, and waits at least as long as
-- the cooling window and the mandate's next eligible time require, which is then within the
-- schedulable horizon.
pub decide_recurring :
    (cancelled : Bool) (g : Gate) (now : Time) (i : GateInput) (cmd : SanitizedCommand)
    → decide cancelled g now i ≡ ok cmd
    → is_recurring i.payment ≡ true
    → executable cmd.action ≡ true
    → (cmd.action ≡ mandate_cascade)
      × (cmd.target_rail ≡ rail_from_method i.payment.method)
      × (cmd.pre_debit_notification_needed ≡ true)
      × (required_wait g.cfg i.mandate now ≤ℤ cmd.delay_seconds)
      × (required_wait g.cfg i.mandate now ≤ℤ max_recommended_delay)
decide_recurring cancelled g now i cmd h r =
    decide-every (CascadeOf g now i) cancelled g now i cmd h
      (command-CascadeOf (gather g now i) _ (verdict-Held (gather g now i) r))

pub required_wait-floor :
    (c : Config) (m : Option MandateRecord) (now : Time)
    → IsSafe c
    → pos 86_400 ≤ℤ required_wait c m now
unfolding required_wait
required_wait-floor c none now s = s.cooling_floor
required_wait-floor c (some m) now s = ground arith

-- Rounding up covers the whole difference, which is then far from saturation.
seconds_until-covers :
    (t now : Time)
    → seconds_until t now ≤ℤ max_recommended_delay
    → (time_sub t now <ℤ max_duration)
      × (time_sub t now ≤ℤ pos (pos_part (seconds_until t now) * second))
unfolding seconds_until
seconds_until-covers t now h = ground arith

seconds_until-reaches :
    (t now : Time)
    → seconds_until t now ≤ℤ max_recommended_delay
    → t ≤ℤ now +ℤ pos (pos_part (seconds_until t now) * second)
seconds_until-reaches t now h =
    let (below, covered) = seconds_until-covers t now h in
    omega (int_laws, time_sub_lower t now below)

-- A later delay, from the same instant.
delay_mono :
    (now a b : ℤ) → a ≤ℤ b → now +ℤ pos (pos_part a * second) ≤ℤ now +ℤ pos (pos_part b * second)
delay_mono now (pos a) (pos b) h = omega int_laws
delay_mono now _ _ h = omega int_laws

required_wait-seconds_until :
    (c : Config) (m : MandateRecord) (t now : Time)
    → m.next_eligible_at ≡ some t
    → seconds_until t now ≤ℤ required_wait c (some m) now
unfolding required_wait
required_wait-seconds_until c m t now e = rw e (ground arith)

-- A wait that a delay covers is over when the delay is.
reaches_by :
    (t now required delay : ℤ)
    → seconds_until t now ≤ℤ required
    → required ≤ℤ max_recommended_delay
    → required ≤ℤ delay
    → t ≤ℤ now +ℤ pos (pos_part delay * second)
reaches_by t now required delay su cap wait = omega (
  arith,
  seconds_until-reaches t now (omega arith),
  delay_mono now (seconds_until t now) delay (omega arith),
)

-- An executable command for a recurring payment with a mandate that has a next eligible time, from
-- a gate with a safe configuration, waits at least 24 hours, and is not due before that time.
pub decide_not_early :
    (cancelled : Bool) (g : Gate) (now : Time) (i : GateInput) (cmd : SanitizedCommand)
    (m : MandateRecord) (t : Time)
    → decide cancelled g now i ≡ ok cmd
    → IsSafe g.cfg
    → is_recurring i.payment ≡ true
    → executable cmd.action ≡ true
    → i.mandate ≡ some m
    → m.next_eligible_at ≡ some t
    → (pos 86_400 ≤ℤ cmd.delay_seconds) × (t ≤ℤ cmd.execute_after)
decide_not_early cancelled g now i cmd m t h s r x e n =
    let (_, _, _, wait, cap) = decide_recurring cancelled g now i cmd h r x in
    let (_, _, _, due) = decide_schedule cancelled g now i cmd h in
    let su : seconds_until t now ≤ℤ required_wait g.cfg i.mandate now =
      rw e (required_wait-seconds_until g.cfg m t now n) in
    (
      omega (arith, required_wait-floor g.cfg i.mandate now s),
      rw due (reaches_by t now (required_wait g.cfg i.mandate now) cmd.delay_seconds su cap wait),
    )
