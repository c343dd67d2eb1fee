-- ===== src/Gatekeeper/Bounds.antt =====
-- internal/gatekeeper/gatekeeper.go: the schedule of a command, and what an abstention carries.
use resilient_mesh_razorpayb.Base.{
  ℕ, ◌*◌, ◌≤◌, ◌≡◌, refl, Bool, false, arith, ℤ, pos, pos_part, ◌+ℤ◌, ◌≤ℤ◌, ok,
}
use resilient_mesh_razorpayb.Domain.Vocabulary.{no_rail, unchanged}
use resilient_mesh_razorpayb.Domain.Times.{Time, second, seconds_duration_exact}
use resilient_mesh_razorpayb.Domain.Records.{
  GateInput, SanitizedCommand, executable, max_recommended_delay,
}
use resilient_mesh_razorpayb.Gatekeeper.Config.{Config, IsSafe}
use resilient_mesh_razorpayb.Gatekeeper.State.{Gate, Facts, Decision, clamp_attempt}
use resilient_mesh_razorpayb.Gatekeeper.MandateRules.{bound_delay}
use resilient_mesh_razorpayb.Gatekeeper.Decide.{decide, gather, verdict, command, settle}
use resilient_mesh_razorpayb.Gatekeeper.Money.{decide-every}

-- A delay of so many seconds, as a whole number.
abbrev pub Delays : ℕ → Decision → Type 0
Delays n d = (d.delay ≡ pos n) × (n ≤ 604_800)

pub bound_delay-Delays :
    (f : Facts) (d : Decision) → Delays (pos_part (bound_delay f d).delay) (bound_delay f d)
unfolding bound_delay
bound_delay-Delays f d = ground arith

pub verdict-Delays : (f : Facts) → Delays (pos_part (verdict f).delay) (verdict f)
unfolding verdict settle
verdict-Delays f = bound_delay-Delays f _

-- What a command says of its schedule.
abbrev Scheduled : Time → SanitizedCommand → Type 0
Scheduled now cmd =
    (pos 0 ≤ℤ cmd.delay_seconds)
    × (cmd.delay_seconds ≤ℤ max_recommended_delay)
    × (cmd.decided_at ≡ now)
    × (cmd.execute_after ≡ now +ℤ pos (pos_part cmd.delay_seconds * second))

command-Scheduled : (f : Facts) (d : Decision) (n : ℕ) → Delays n d → Scheduled f.now (command f d)
unfolding command
command-Scheduled f d n (e, h) =
    (rw e (omega arith), rw e (omega arith), refl, rw (e, seconds_duration_exact n (omega arith)))

-- The delay of a command lies between 0 and one week, its decision time is the clock reading, and
-- it is due exactly so many seconds after that reading.
pub decide_schedule :
    (cancelled : Bool) (g : Gate) (now : Time) (i : GateInput) (cmd : SanitizedCommand)
    → decide cancelled g now i ≡ ok cmd
    → (pos 0 ≤ℤ cmd.delay_seconds)
      × (cmd.delay_seconds ≤ℤ max_recommended_delay)
      × (cmd.decided_at ≡ now)
      × (cmd.execute_after ≡ now +ℤ pos (pos_part cmd.delay_seconds * second))
decide_schedule cancelled g now i cmd h =
    decide-every (Scheduled now) cancelled g now i cmd h
      (command-Scheduled (gather g now i) _ _ (verdict-Delays (gather g now i)))

abbrev pub Idle : Decision → Type 0
Idle d =
    (d.delay ≡ pos 0) × (d.rail ≡ no_rail) × (d.pre_debit ≡ false) × (d.presentation ≡ unchanged)

pub bound_delay-Idle :
    (f : Facts) (d : Decision)
    → executable (bound_delay f d).action ≡ false
    → Idle (bound_delay f d)
unfolding bound_delay executable
bound_delay-Idle f d h = ground arith

abbrev IdleCommand : SanitizedCommand → Type 0
IdleCommand cmd =
    executable cmd.action ≡ false
    → (cmd.delay_seconds ≡ pos 0)
      × (cmd.target_rail ≡ no_rail)
      × (cmd.pre_debit_notification_needed ≡ false)
      × (cmd.presentation ≡ unchanged)

verdict-Idle : (f : Facts) → executable (verdict f).action ≡ false → Idle (verdict f)
unfolding verdict settle
verdict-Idle f h = bound_delay-Idle f _ h

command-IdleCommand : (f : Facts) → IdleCommand (command f (verdict f))
unfolding command
command-IdleCommand f h = verdict-Idle f h

-- A command that is not executable asks for nothing: it names no rail, no delay, no notice and no
-- other presentation of the instrument.
pub decide_idle :
    (cancelled : Bool) (g : Gate) (now : Time) (i : GateInput) (cmd : SanitizedCommand)
    → decide cancelled g now i ≡ ok cmd
    → executable cmd.action ≡ false
    → (cmd.delay_seconds ≡ pos 0)
      × (cmd.target_rail ≡ no_rail)
      × (cmd.pre_debit_notification_needed ≡ false)
      × (cmd.presentation ≡ unchanged)
decide_idle cancelled g now i cmd h =
    decide-every IdleCommand cancelled g now i cmd h (command-IdleCommand (gather g now i))

pub clamp_attempt-range :
    (c : Config) (n : ℤ)
    → IsSafe c
    → (pos 0 ≤ℤ clamp_attempt c n) × (clamp_attempt c n ≤ℤ c.max_attempts)
unfolding clamp_attempt
clamp_attempt-range c n s = ground arith
