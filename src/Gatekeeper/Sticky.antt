-- ===== src/Gatekeeper/Sticky.antt =====
-- internal/gatekeeper/gatekeeper.go: abstention is final. No rule turns an abstained decision into an
-- executable one.
use resilient_mesh_razorpayb.Base.{◌≡◌, arith}
use resilient_mesh_razorpayb.Domain.Vocabulary.{abstain}
use resilient_mesh_razorpayb.Gatekeeper.State.{Decision, Facts}
use resilient_mesh_razorpayb.Gatekeeper.Rules.{
  pin_amount, halt_terminal, stop_attempts, require_confidence, require_recoverable,
  require_session, require_listed_rail, schedule,
}
use resilient_mesh_razorpayb.Gatekeeper.MandateRules.{
  impose_cooling, require_notice, cap_afa, respect_halt, cap_cycle, allow_refresh, bound_delay,
}
use resilient_mesh_razorpayb.Gatekeeper.Decide.{place, mandates, settle}

abbrev pub Stopped : Decision → Type 0
Stopped d = d.action ≡ abstain

module _ (f : Facts) (d : Decision) (h : Stopped d) where
  pub pin_amount-Stopped : Stopped (pin_amount f d)
  unfolding pin_amount
  pin_amount-Stopped = ground arith

  pub halt_terminal-Stopped : Stopped (halt_terminal f d)
  unfolding halt_terminal
  halt_terminal-Stopped = ground arith

  pub stop_attempts-Stopped : Stopped (stop_attempts f d)
  unfolding stop_attempts
  stop_attempts-Stopped = ground arith

  pub require_confidence-Stopped : Stopped (require_confidence f d)
  unfolding require_confidence
  require_confidence-Stopped = ground arith

  pub require_recoverable-Stopped : Stopped (require_recoverable f d)
  unfolding require_recoverable
  require_recoverable-Stopped = ground arith

  pub require_session-Stopped : Stopped (require_session f d)
  unfolding require_session
  require_session-Stopped = ground arith

  pub require_listed_rail-Stopped : Stopped (require_listed_rail f d)
  unfolding require_listed_rail
  require_listed_rail-Stopped = ground arith

  pub schedule-Stopped : Stopped (schedule f d)
  unfolding schedule
  schedule-Stopped = h

  pub impose_cooling-Stopped : Stopped (impose_cooling f d)
  unfolding impose_cooling
  impose_cooling-Stopped = ground arith

  pub require_notice-Stopped : Stopped (require_notice f d)
  unfolding require_notice
  require_notice-Stopped = ground arith

  pub cap_afa-Stopped : Stopped (cap_afa f d)
  unfolding cap_afa
  cap_afa-Stopped = ground arith

  pub respect_halt-Stopped : Stopped (respect_halt f d)
  unfolding respect_halt
  respect_halt-Stopped = ground arith

  pub cap_cycle-Stopped : Stopped (cap_cycle f d)
  unfolding cap_cycle
  cap_cycle-Stopped = ground arith

  pub allow_refresh-Stopped : Stopped (allow_refresh f d)
  unfolding allow_refresh
  allow_refresh-Stopped = ground arith

  pub bound_delay-Stopped : Stopped (bound_delay f d)
  unfolding bound_delay
  bound_delay-Stopped = ground arith

pub ruleset sticky_rules = (
  pin_amount-Stopped, halt_terminal-Stopped, stop_attempts-Stopped, require_confidence-Stopped,
  require_recoverable-Stopped, require_session-Stopped, require_listed_rail-Stopped,
  schedule-Stopped, impose_cooling-Stopped, require_notice-Stopped, cap_afa-Stopped,
  respect_halt-Stopped, cap_cycle-Stopped, allow_refresh-Stopped, bound_delay-Stopped,
)

pub place-Stopped : (f : Facts) (d : Decision) → Stopped d → Stopped (place f d)
unfolding place
place-Stopped f d h = search sticky_rules

pub mandates-Stopped : (f : Facts) (d : Decision) → Stopped d → Stopped (mandates f d)
unfolding mandates
mandates-Stopped f d h = search sticky_rules depth 7

pub settle-Stopped : (f : Facts) (d : Decision) → Stopped d → Stopped (settle f d)
unfolding settle
settle-Stopped f d h = search sticky_rules
