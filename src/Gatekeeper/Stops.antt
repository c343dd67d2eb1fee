-- ===== src/Gatekeeper/Stops.antt =====
-- internal/gatekeeper/gatekeeper.go: the conditions under which Decide never lets a payment be
-- attempted again.
use resilient_mesh_razorpayb.Base.{
  ◌≡◌, sym, ap, ◌∙◌, ◌≢◌, ◌⊎◌, inl, inr, Bool, true, false, some, arith, list_eq-eq, pos, ◌≤ℤ◌,
  ◌<ℤ◌, Float64, nan, leb_float, ltb_float, float_one, ok,
}
use resilient_mesh_razorpayb.Text.{is_empty}
use resilient_mesh_razorpayb.Domain.Vocabulary.{abstain, parse_failure_class, recoverable}
use resilient_mesh_razorpayb.Domain.Taxonomy.{is_terminal_decline, afa_ceiling_paisa}
use resilient_mesh_razorpayb.Domain.Refold.{is_terminal_decline-to_lower}
use resilient_mesh_razorpayb.Domain.Times.{Time}
use resilient_mesh_razorpayb.Domain.Records.{
  GateInput, MandateRecord, SanitizedCommand, is_recurring, max_recommended_delay,
}
use resilient_mesh_razorpayb.Gatekeeper.Config.{Config}
use resilient_mesh_razorpayb.Gatekeeper.Helpers.{chargeable}
use resilient_mesh_razorpayb.Gatekeeper.State.{Gate, Facts, Decision, read_proposal, begin}
use resilient_mesh_razorpayb.Gatekeeper.Rules.{
  confident, pin_amount, halt_terminal, stop_attempts, require_confidence, require_recoverable,
}
use resilient_mesh_razorpayb.Gatekeeper.MandateRules.{
  required_wait, category_of, impose_cooling, cap_afa, respect_halt, cap_cycle,
}
use resilient_mesh_razorpayb.Gatekeeper.Decide.{decide, gather, verdict, command, vetoes, mandates}
use resilient_mesh_razorpayb.Gatekeeper.Money.{decide-ok}
use resilient_mesh_razorpayb.Gatekeeper.Sticky.{
  Stopped, place-Stopped, mandates-Stopped, settle-Stopped, sticky_rules,
}

-- The reasons for which a payment must not be attempted again, read off the gate and its input.
pub data MustStop (g : Gate) (now : Time) (i : GateInput) : Type 0 where
  free_or_negative : i.payment.amount ≤ℤ pos 0 → MustStop g now i
  terminal_code : is_terminal_decline i.payment.error_code ≡ true → MustStop g now i
  attempts_spent : g.cfg.max_attempts <ℤ i.attempt_number → MustStop g now i
  confidence_nan : i.proposal.confidence_score ≡ nan → MustStop g now i
  confidence_low :
      ltb_float i.proposal.confidence_score g.cfg.min_confidence ≡ true → MustStop g now i
  confidence_above_one : ltb_float float_one i.proposal.confidence_score ≡ true → MustStop g now i
  hopeless_class :
      recoverable (parse_failure_class i.proposal.failure_classification) ≡ false → MustStop g now i
  foreign :
      is_empty i.proposal.incident_id ≡ false
      → i.proposal.incident_id ≢ i.incident_id
      → MustStop g now i
  not_schedulable :
      is_recurring i.payment ≡ true
      → max_recommended_delay <ℤ required_wait g.cfg i.mandate now
      → MustStop g now i
  above_afa_ceiling :
      is_recurring i.payment ≡ true
      → afa_ceiling_paisa (category_of i.mandate) <ℤ i.payment.amount
      → MustStop g now i
  halted_mandate : (m : MandateRecord) → i.mandate ≡ some m → m.halted ≡ true → MustStop g now i
  cycle_capped :
      (m : MandateRecord)
      → i.mandate ≡ some m
      → g.cfg.mandate_cycle_cap ≤ℤ m.attempts_in_cycle
      → MustStop g now i

pin_amount_stops :
    (f : Facts) (d : Decision) → f.input.payment.amount ≤ℤ pos 0 → Stopped (pin_amount f d)
unfolding pin_amount chargeable
pin_amount_stops f d h = ground arith

halt_terminal_stops :
    (f : Facts) (d : Decision)
    → is_terminal_decline f.input.payment.error_code ≡ true
    → Stopped (halt_terminal f d)
unfolding halt_terminal
halt_terminal_stops f d h = rw (is_terminal_decline-to_lower f.input.payment.error_code h)

stop_attempts_stops :
    (f : Facts) (d : Decision)
    → f.gate.cfg.max_attempts <ℤ f.input.attempt_number
    → Stopped (stop_attempts f d)
unfolding stop_attempts
stop_attempts_stops f d h = ground arith

ltb-not_leb : (a b : Float64) → ltb_float a b ≡ true → leb_float b a ≡ false
ltb-not_leb a b h = ground arith

not_confident_nan : (cfg : Config) (c : Float64) → c ≡ nan → confident cfg c ≡ false
not_confident_nan cfg c h = ground arith

not_confident_low :
    (cfg : Config) (c : Float64) → ltb_float c cfg.min_confidence ≡ true → confident cfg c ≡ false
not_confident_low cfg c h = rw (ltb-not_leb c cfg.min_confidence h)

not_confident_high :
    (cfg : Config) (c : Float64) → ltb_float float_one c ≡ true → confident cfg c ≡ false
not_confident_high cfg c h = ground (arith, ltb-not_leb float_one c h)

require_confidence_stops :
    (f : Facts) (d : Decision)
    → confident f.gate.cfg f.input.proposal.confidence_score ≡ false
    → Stopped (require_confidence f d)
unfolding require_confidence
require_confidence_stops f d h = rw h

require_recoverable_stops :
    (f : Facts) (d : Decision)
    → recoverable f.reading.class ≡ false
    → Stopped (require_recoverable f d)
unfolding require_recoverable
require_recoverable_stops f d h = rw h

cap_afa_stops :
    (f : Facts) (d : Decision)
    → is_recurring f.input.payment ≡ true
    → afa_ceiling_paisa (category_of f.input.mandate) <ℤ f.input.payment.amount
    → Stopped (cap_afa f d)
unfolding cap_afa
cap_afa_stops f d r h = ground arith

impose_cooling_stops :
    (f : Facts) (d : Decision)
    → is_recurring f.input.payment ≡ true
    → max_recommended_delay <ℤ required_wait f.gate.cfg f.input.mandate f.now
    → Stopped (impose_cooling f d)
unfolding impose_cooling
impose_cooling_stops f d r h = ground arith

respect_halt_stops :
    (f : Facts) (d : Decision) (m : MandateRecord)
    → f.input.mandate ≡ some m
    → m.halted ≡ true
    → Stopped (respect_halt f d)
unfolding respect_halt
respect_halt_stops f d m e h = rw e (rw h)

cap_cycle_stops :
    (f : Facts) (d : Decision) (m : MandateRecord)
    → f.input.mandate ≡ some m
    → f.gate.cfg.mandate_cycle_cap ≤ℤ m.attempts_in_cycle
    → Stopped (cap_cycle f d)
unfolding cap_cycle
cap_cycle_stops f d m e h = rw e (ground arith)

foreign_class :
    (i : GateInput)
    → is_empty i.proposal.incident_id ≡ false
    → i.proposal.incident_id ≢ i.incident_id
    → recoverable (read_proposal i).class ≡ false
unfolding read_proposal recoverable
foreign_class i filled other = ground (arith, list_eq-eq i.proposal.incident_id i.incident_id)

hopeless :
    (i : GateInput)
    → recoverable (parse_failure_class i.proposal.failure_classification) ≡ false
    → recoverable (read_proposal i).class ≡ false
unfolding read_proposal recoverable
hopeless i h = ground arith

-- After the rules 1 to 5.
abbrev VetoedAt : Facts → Type 0
VetoedAt f = Stopped (vetoes f (begin f))

unsure_halts :
    (f : Facts) → confident f.gate.cfg f.input.proposal.confidence_score ≡ false → VetoedAt f
unfolding vetoes
unsure_halts f h = search (sticky_rules, require_confidence_stops)

-- After the rules 8 to 11, wherever they begin.
abbrev RefusedAt : Facts → Type 0
RefusedAt f = (d : Decision) → Stopped (mandates f d)

MustStop-halts :
    (g : Gate) (now : Time) (i : GateInput)
    → MustStop g now i
    → VetoedAt (gather g now i) ⊎ RefusedAt (gather g now i)
unfolding vetoes mandates
MustStop-halts g now i (free_or_negative h) = inl (search (sticky_rules, pin_amount_stops))
MustStop-halts g now i (terminal_code h) = inl (search (sticky_rules, halt_terminal_stops))
MustStop-halts g now i (attempts_spent h) = inl (search (sticky_rules, stop_attempts_stops))
MustStop-halts g now i (confidence_nan h) =
    inl (unsure_halts (gather g now i) (not_confident_nan g.cfg _ h))
MustStop-halts g now i (confidence_low h) =
    inl (unsure_halts (gather g now i) (not_confident_low g.cfg _ h))
MustStop-halts g now i (confidence_above_one h) =
    inl (unsure_halts (gather g now i) (not_confident_high g.cfg _ h))
MustStop-halts g now i (hopeless_class h) =
    inl (require_recoverable_stops (gather g now i) _ (hopeless i h))
MustStop-halts g now i (foreign h k) =
    inl (require_recoverable_stops (gather g now i) _ (foreign_class i h k))
MustStop-halts g now i (not_schedulable r h) =
    inr (λ d. search (sticky_rules, impose_cooling_stops (gather g now i) d r h) depth 7)
MustStop-halts g now i (above_afa_ceiling r h) =
    inr (λ d. search (sticky_rules, cap_afa_stops (gather g now i) _ r h))
MustStop-halts g now i (halted_mandate m e h) =
    inr (λ d. search (sticky_rules, respect_halt_stops (gather g now i) _ m e h))
MustStop-halts g now i (cycle_capped m e h) = inr (λ d. cap_cycle_stops (gather g now i) _ m e h)

verdict_stops :
    (g : Gate) (now : Time) (i : GateInput) → MustStop g now i → Stopped (verdict (gather g now i))
unfolding verdict
verdict_stops g now i m = elim (MustStop-halts g now i m) [
  | inl h ↦ settle-Stopped _ _ (mandates-Stopped _ _ (place-Stopped _ _ h))
  | inr h ↦ settle-Stopped _ _ (h _)
]

-- No veto is overruled: for an amount of nothing, a terminal decline code, an attempt past the
-- ceiling, a confidence that is NaN, below the floor or above one, an unrecoverable class, another
-- incident's proposal, a mandate that is not eligible within the schedulable horizon, above its
-- authentication ceiling, halted or out of attempts in its cycle, the command of Decide abstains.
pub decide_stops :
    (cancelled : Bool) (g : Gate) (now : Time) (i : GateInput) (cmd : SanitizedCommand)
    → decide cancelled g now i ≡ ok cmd
    → MustStop g now i
    → cmd.action ≡ abstain
unfolding command
decide_stops cancelled g now i cmd h m =
    let (_, _, e) = decide-ok cancelled g now i cmd h in
    ap (λ c. c.action) (sym e) ∙ verdict_stops g now i m
