-- ===== src/Gatekeeper/Trail.antt =====
-- internal/gatekeeper/gatekeeper.go: the rules that a command names as applied.
use resilient_mesh_razorpayb.Base.{
  ◌≡◌, refl, ◌∙◌, Bool, false, Option, none, some, List, [], ◌∷◌, ◌++◌, arith, any, any-append, ok,
}
use resilient_mesh_razorpayb.Domain.Times.{Time}
use resilient_mesh_razorpayb.Domain.Records.{
  GateInput, SanitizedCommand, Rule, amount_pinned, terminal_decline, stop_max_attempts,
  low_confidence, unrecoverable_class, session_required, rail_allowlist, mandate_cooling,
  pre_debit_notice, instrument_refreshed, afa_ceiling, mandate_halted, mandate_cycle_cap,
  delay_bounds,
}
use resilient_mesh_razorpayb.Gatekeeper.State.{Gate, Facts, Decision, begin}
use resilient_mesh_razorpayb.Gatekeeper.Rules.{
  pin_amount, halt_terminal, stop_attempts, require_confidence, require_recoverable,
  require_session, require_listed_rail, schedule,
}
use resilient_mesh_razorpayb.Gatekeeper.MandateRules.{
  impose_cooling, require_notice, cap_afa, respect_halt, cap_cycle, allow_refresh, bound_delay,
  cycle_spent,
}
use resilient_mesh_razorpayb.Gatekeeper.Decide.{
  decide, gather, verdict, command, place, vetoes, mandates, settle, rule_eq, requires_mandate_halt,
}
use resilient_mesh_razorpayb.Gatekeeper.Money.{decide-every}

abbrev pub first : List Rule → Option Rule
first [] = none
first (r ∷ rs) = some r

unfoldable pub last : List Rule → Option Rule
last [] = none
last (r ∷ []) = some r
last (r ∷ s ∷ rs) = last (s ∷ rs)

last-append : (rs : List Rule) (r : Rule) → last (rs ++ r ∷ []) ≡ some r
unfolding last
last-append [] r = refl
last-append (s ∷ []) r = refl
last-append (s ∷ t ∷ rs) r = last-append (t ∷ rs) r

first-append : (rs ss : List Rule) (r : Rule) → first rs ≡ some r → first (rs ++ ss) ≡ some r
first-append [] ss r h = cc
first-append (s ∷ rs) ss r h = h

abbrev capped : List Rule → Bool
capped = any (rule_eq mandate_cycle_cap)

-- The trail begins with the pinned amount, and names the cycle cap or not.
abbrev Trail : Bool → Decision → Type 0
Trail b d = (first d.fired ≡ some amount_pinned) × (capped d.fired ≡ b)

-- Another rule than the cycle cap does not change what a trail says of it.
pushed :
    (b : Bool) (rs : List Rule) (r : Rule)
    → (first rs ≡ some amount_pinned) × (capped rs ≡ b)
    → rule_eq mandate_cycle_cap r ≡ false
    → (first (rs ++ r ∷ []) ≡ some amount_pinned) × (capped (rs ++ r ∷ []) ≡ b)
pushed b rs r (h, c) n = (
  first-append rs (r ∷ []) amount_pinned h,
  any-append (rule_eq mandate_cycle_cap) rs (r ∷ []) ∙ ground arith,
)

module _ (b : Bool) (f : Facts) (d : Decision) (t : Trail b d) where
  halt_terminal-Trail : Trail b (halt_terminal f d)
  unfolding halt_terminal rule_eq
  halt_terminal-Trail = ground (arith, pushed b d.fired terminal_decline t)

  stop_attempts-Trail : Trail b (stop_attempts f d)
  unfolding stop_attempts rule_eq
  stop_attempts-Trail = ground (arith, pushed b d.fired stop_max_attempts t)

  require_confidence-Trail : Trail b (require_confidence f d)
  unfolding require_confidence rule_eq
  require_confidence-Trail = ground (arith, pushed b d.fired low_confidence t)

  require_recoverable-Trail : Trail b (require_recoverable f d)
  unfolding require_recoverable rule_eq
  require_recoverable-Trail = ground (arith, pushed b d.fired unrecoverable_class t)

  require_session-Trail : Trail b (require_session f d)
  unfolding require_session rule_eq
  require_session-Trail = ground (arith, pushed b d.fired session_required t)

  require_listed_rail-Trail : Trail b (require_listed_rail f d)
  unfolding require_listed_rail rule_eq
  require_listed_rail-Trail = ground (arith, pushed b d.fired rail_allowlist t)

  impose_cooling-Trail : Trail b (impose_cooling f d)
  unfolding impose_cooling rule_eq
  impose_cooling-Trail = ground (arith, pushed b d.fired mandate_cooling t)

  require_notice-Trail : Trail b (require_notice f d)
  unfolding require_notice rule_eq
  require_notice-Trail = ground (arith, pushed b d.fired pre_debit_notice t)

  cap_afa-Trail : Trail b (cap_afa f d)
  unfolding cap_afa rule_eq
  cap_afa-Trail = ground (arith, pushed b d.fired afa_ceiling t)

  respect_halt-Trail : Trail b (respect_halt f d)
  unfolding respect_halt rule_eq
  respect_halt-Trail = ground (arith, pushed b d.fired mandate_halted t)

  allow_refresh-Trail : Trail b (allow_refresh f d)
  unfolding allow_refresh rule_eq
  allow_refresh-Trail = ground (arith, pushed b d.fired instrument_refreshed t)

  bound_delay-Trail : Trail b (bound_delay f d)
  unfolding bound_delay rule_eq
  bound_delay-Trail = ground (arith, pushed b d.fired delay_bounds t)

pin_amount-Trail : (f : Facts) → Trail false (pin_amount f (begin f))
unfolding pin_amount begin rule_eq
pin_amount-Trail f = ground arith

cap_cycle-Trail :
    (f : Facts) (d : Decision)
    → Trail false d
    → Trail (cycle_spent f.gate.cfg f.input.mandate) (cap_cycle f d)
unfolding cap_cycle rule_eq
cap_cycle-Trail f d t = ground (
  arith,
  first-append d.fired (mandate_cycle_cap ∷ []) amount_pinned t.0,
  any-append (rule_eq mandate_cycle_cap) d.fired (mandate_cycle_cap ∷ []),
)

vetoes-Trail : (f : Facts) → Trail false (vetoes f (begin f))
unfolding vetoes
vetoes-Trail f = require_recoverable-Trail false f _ (
    require_confidence-Trail false f _
      (stop_attempts-Trail false f _ (halt_terminal-Trail false f _ (pin_amount-Trail f))))

place-Trail : (f : Facts) (d : Decision) → Trail false d → Trail false (place f d)
unfolding place schedule
place-Trail f d t = require_listed_rail-Trail false f _ (require_session-Trail false f d t)

mandates-Trail :
    (f : Facts) (d : Decision)
    → Trail false d
    → Trail (cycle_spent f.gate.cfg f.input.mandate) (mandates f d)
unfolding mandates
mandates-Trail f d t = cap_cycle-Trail f _ (
    respect_halt-Trail false f _
      (cap_afa-Trail false f _ (require_notice-Trail false f _ (impose_cooling-Trail false f d t))))

verdict-Trail : (f : Facts) → Trail (cycle_spent f.gate.cfg f.input.mandate) (verdict f)
unfolding verdict settle
verdict-Trail f =
    bound_delay-Trail _ f _
      (allow_refresh-Trail _ f _ (mandates-Trail f _ (place-Trail f _ (vetoes-Trail f))))

verdict-last : (f : Facts) → last (verdict f).fired ≡ some delay_bounds
unfolding verdict settle bound_delay
verdict-last f = last-append _ delay_bounds

abbrev Accounts : Gate → GateInput → SanitizedCommand → Type 0
Accounts g i cmd =
    (first cmd.applied_invariants ≡ some amount_pinned)
    × (last cmd.applied_invariants ≡ some delay_bounds)
    × (requires_mandate_halt cmd ≡ cycle_spent g.cfg i.mandate)

command-Accounts : (f : Facts) → Accounts f.gate f.input (command f (verdict f))
unfolding command requires_mandate_halt
command-Accounts f = ((verdict-Trail f).0, verdict-last f, (verdict-Trail f).1)

-- The trail of a command begins with the pinning of the amount and ends with the bounds of the
-- delay, and RequiresMandateHalt, which reads it, tells the caller to halt the mandate exactly when
-- the mandate has spent the attempts of its cycle.
pub decide_trail :
    (cancelled : Bool) (g : Gate) (now : Time) (i : GateInput) (cmd : SanitizedCommand)
    → decide cancelled g now i ≡ ok cmd
    → (first cmd.applied_invariants ≡ some amount_pinned)
      × (last cmd.applied_invariants ≡ some delay_bounds)
      × (requires_mandate_halt cmd ≡ cycle_spent g.cfg i.mandate)
decide_trail cancelled g now i cmd h =
    decide-every (Accounts g i) cancelled g now i cmd h (command-Accounts (gather g now i))
