-- ===== src/Gatekeeper/OwnRail.antt =====
-- internal/gatekeeper/gatekeeper.go: which rail a decision other than a morph names.
use resilient_mesh_razorpayb.Base.{◌≡◌, ◌≢◌, ◌⊎◌, Bool, true, false, arith, ok}
use resilient_mesh_razorpayb.Domain.Vocabulary.{Action, rail_morph, rail_from_method}
use resilient_mesh_razorpayb.Domain.Times.{Time}
use resilient_mesh_razorpayb.Domain.Records.{GateInput, SanitizedCommand, executable}
use resilient_mesh_razorpayb.Gatekeeper.State.{
  Gate, Facts, Decision, is_abstain, is_morph, failing_rail, begin,
}
use resilient_mesh_razorpayb.Gatekeeper.Rules.{
  pin_amount, halt_terminal, stop_attempts, require_confidence, require_recoverable,
  require_session, require_listed_rail, schedule,
}
use resilient_mesh_razorpayb.Gatekeeper.MandateRules.{
  impose_cooling, require_notice, cap_afa, respect_halt, cap_cycle, allow_refresh, bound_delay,
}
use resilient_mesh_razorpayb.Gatekeeper.Decide.{
  decide, gather, verdict, command, vetoes, place, mandates, settle,
}
use resilient_mesh_razorpayb.Gatekeeper.Money.{decide-every}

-- A decision to do something other than a morph is on the rail of the payment.
abbrev OnOwnRail : Facts → Decision → Type 0
OnOwnRail f d =
    (is_abstain d.action ≡ true) ⊎ (is_morph d.action ≡ true) ⊎ (d.rail ≡ failing_rail f)

begin-OnOwnRail : (f : Facts) → OnOwnRail f (begin f)
unfolding begin
begin-OnOwnRail f = ground arith

module _ (f : Facts) (d : Decision) (p : OnOwnRail f d) where
  pin_amount-OnOwnRail : OnOwnRail f (pin_amount f d)
  unfolding pin_amount
  pin_amount-OnOwnRail = ground arith

  halt_terminal-OnOwnRail : OnOwnRail f (halt_terminal f d)
  unfolding halt_terminal
  halt_terminal-OnOwnRail = ground arith

  stop_attempts-OnOwnRail : OnOwnRail f (stop_attempts f d)
  unfolding stop_attempts
  stop_attempts-OnOwnRail = ground arith

  require_confidence-OnOwnRail : OnOwnRail f (require_confidence f d)
  unfolding require_confidence
  require_confidence-OnOwnRail = ground arith

  require_recoverable-OnOwnRail : OnOwnRail f (require_recoverable f d)
  unfolding require_recoverable
  require_recoverable-OnOwnRail = ground arith

  require_session-OnOwnRail : OnOwnRail f (require_session f d)
  unfolding require_session
  require_session-OnOwnRail = ground arith

  require_listed_rail-OnOwnRail : OnOwnRail f (require_listed_rail f d)
  unfolding require_listed_rail
  require_listed_rail-OnOwnRail = ground arith

  schedule-OnOwnRail : OnOwnRail f (schedule f d)
  unfolding schedule
  schedule-OnOwnRail = p

  impose_cooling-OnOwnRail : OnOwnRail f (impose_cooling f d)
  unfolding impose_cooling
  impose_cooling-OnOwnRail = ground arith

  require_notice-OnOwnRail : OnOwnRail f (require_notice f d)
  unfolding require_notice
  require_notice-OnOwnRail = ground arith

  cap_afa-OnOwnRail : OnOwnRail f (cap_afa f d)
  unfolding cap_afa
  cap_afa-OnOwnRail = ground arith

  respect_halt-OnOwnRail : OnOwnRail f (respect_halt f d)
  unfolding respect_halt
  respect_halt-OnOwnRail = ground arith

  cap_cycle-OnOwnRail : OnOwnRail f (cap_cycle f d)
  unfolding cap_cycle
  cap_cycle-OnOwnRail = ground arith

  allow_refresh-OnOwnRail : OnOwnRail f (allow_refresh f d)
  unfolding allow_refresh
  allow_refresh-OnOwnRail = ground arith

  bound_delay-OnOwnRail : OnOwnRail f (bound_delay f d)
  unfolding bound_delay executable
  bound_delay-OnOwnRail = ground arith

ruleset keeping_rail = (
  begin-OnOwnRail, pin_amount-OnOwnRail, halt_terminal-OnOwnRail, stop_attempts-OnOwnRail,
  require_confidence-OnOwnRail, require_recoverable-OnOwnRail, require_session-OnOwnRail,
  require_listed_rail-OnOwnRail, schedule-OnOwnRail, impose_cooling-OnOwnRail,
  require_notice-OnOwnRail, cap_afa-OnOwnRail, respect_halt-OnOwnRail, cap_cycle-OnOwnRail,
  allow_refresh-OnOwnRail, bound_delay-OnOwnRail,
)

verdict-OnOwnRail : (f : Facts) → OnOwnRail f (verdict f)
unfolding verdict settle mandates place vetoes
verdict-OnOwnRail f = search keeping_rail depth 20

abbrev RailOf : GateInput → SanitizedCommand → Type 0
RailOf i cmd =
    executable cmd.action ≡ true
    → cmd.action ≢ rail_morph
    → cmd.target_rail ≡ rail_from_method i.payment.method

not_morph : (a : Action) → a ≢ rail_morph → is_morph a ≡ false
not_morph a n = ground arith

command-RailOf : (f : Facts) (d : Decision) → OnOwnRail f d → RailOf f.input (command f d)
unfolding command executable
command-RailOf f d h x n = ground (arith, not_morph d.action n)

-- An executable command other than a morph presents the payment on the rail that failed.
pub decide_own_rail :
    (cancelled : Bool) (g : Gate) (now : Time) (i : GateInput) (cmd : SanitizedCommand)
    → decide cancelled g now i ≡ ok cmd
    → executable cmd.action ≡ true
    → cmd.action ≢ rail_morph
    → cmd.target_rail ≡ rail_from_method i.payment.method
decide_own_rail cancelled g now i cmd h =
    decide-every (RailOf i) cancelled g now i cmd h
      (command-RailOf (gather g now i) _ (verdict-OnOwnRail (gather g now i)))
