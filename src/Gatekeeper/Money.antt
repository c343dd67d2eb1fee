-- ===== src/Gatekeeper/Money.antt =====
-- internal/gatekeeper/gatekeeper.go: where the money fields of a command come from, and when Decide
-- answers at all.
use resilient_mesh_razorpayb.Base.{
  subst, ◌≡◌, refl, sym, ap, ◌≢◌, ◌↔◌, inl, inr, Bool, true, false, ◌||◌, arith, if◌then◌else◌,
  Bool-cases, list_eq_refl, Result, ok, err,
}
use resilient_mesh_razorpayb.Text.{is_empty}
use resilient_mesh_razorpayb.Domain.Times.{Time}
use resilient_mesh_razorpayb.Domain.Records.{GateInput, SanitizedCommand}
use resilient_mesh_razorpayb.Gatekeeper.Helpers.{money_pinned}
use resilient_mesh_razorpayb.Gatekeeper.State.{Gate, Facts, Decision}
use resilient_mesh_razorpayb.Gatekeeper.Decide.{money_tampered, decide, command, gather, verdict}

abbrev pub IsComplete : GateInput → Type 0
IsComplete i = (is_empty i.incident_id ≡ false) × (is_empty i.payment.id ≡ false)

command-money_pinned :
    (f : Facts) (d : Decision) → money_pinned (command f d) f.input.payment ≡ true
unfolding command money_pinned
command-money_pinned f d = ground (arith, list_eq_refl f.input.payment.currency)

module _ {ℓ κ} {E : Type κ} {A : Type ℓ} where
  -- A guard that returned no error was not met.
  guard-ok :
      (b : Bool) (e : E) (r : Result E A) (a : A)
      → (if b then err e else r) ≡ ok a
      → (b ≡ false) × (r ≡ ok a)
  guard-ok true e r a h = cc
  guard-ok false e r a h = (refl, h)

  checked-ok : (b : Bool) (e : E) (x a : A) → (if b then ok x else err e) ≡ ok a → x ≡ a
  checked-ok true e x a h = cc
  checked-ok false e x a h = cc

-- Decide answers with the command of the rules' verdict, for a complete input and a live context.
pub decide_lem :
    (g : Gate) (now : Time) (i : GateInput)
    → IsComplete i
    → decide false g now i ≡ ok (command (gather g now i) (verdict (gather g now i)))
unfolding decide
decide_lem g now i h =
    rw (h.0, h.1, command-money_pinned (gather g now i) (verdict (gather g now i)))

-- It answers in no other case, and with no other command.
pub decide-ok :
    (cancelled : Bool) (g : Gate) (now : Time) (i : GateInput) (cmd : SanitizedCommand)
    → decide cancelled g now i ≡ ok cmd
    → (cancelled ≡ false)
      × IsComplete i
      × (command (gather g now i) (verdict (gather g now i)) ≡ cmd)
unfolding decide
decide-ok true g now i cmd h = cc
decide-ok false g now i cmd h =
    let (filled, rest) = guard-ok (is_empty i.incident_id || is_empty i.payment.id) _ _ cmd h in
    (refl, ground arith, checked-ok _ _ _ cmd rest)

-- What holds of the command of the verdict holds of every command that Decide returns.
pub decide-every {ℓ} :
    (P : SanitizedCommand → Type ℓ) (cancelled : Bool) (g : Gate) (now : Time) (i : GateInput)
    (cmd : SanitizedCommand)
    → decide cancelled g now i ≡ ok cmd
    → P (command (gather g now i) (verdict (gather g now i)))
    → P cmd
decide-every P cancelled g now i cmd h p = subst P (decide-ok cancelled g now i cmd h).2 p

-- A decision never moves money: the command that Decide returns names the incident, the payment and
-- the order of its input, and carries the amount and the currency of the verified payment, whatever
-- the proposal, the clock, the policy engine and the telemetry say.
pub decide-money :
    (cancelled : Bool) (g : Gate) (now : Time) (i : GateInput) (cmd : SanitizedCommand)
    → decide cancelled g now i ≡ ok cmd
    → (cmd.immutable_amount_paisa ≡ i.payment.amount)
      × (cmd.currency ≡ i.payment.currency)
      × (cmd.payment_id ≡ i.payment.id)
      × (cmd.order_id ≡ i.payment.order_id)
      × (cmd.incident_id ≡ i.incident_id)
unfolding command
decide-money cancelled g now i cmd h =
    let (_, _, e) = decide-ok cancelled g now i cmd h in
    (
      ap (λ c. c.immutable_amount_paisa) (sym e),
      ap (λ c. c.currency) (sym e),
      ap (λ c. c.payment_id) (sym e),
      ap (λ c. c.order_id) (sym e),
      ap (λ c. c.incident_id) (sym e),
    )

decide_not_tampered :
    (cancelled : Bool) (g : Gate) (now : Time) (i : GateInput)
    → decide cancelled g now i ≢ err money_tampered
unfolding decide
decide_not_tampered true g now i h = cc
decide_not_tampered false g now i h =
    elim (Bool-cases (is_empty i.incident_id || is_empty i.payment.id)) [
      | inl e ↦ cc (rw e at h)
      | inr e ↦ cc (decide_lem g now i (ground arith))
    ]

-- Decide is total: it returns a command exactly when the context is live and the incident and the
-- payment have ids, and the check of the money fields before the return never fails.
pub decide_total :
    (cancelled : Bool) (g : Gate) (now : Time) (i : GateInput)
    → (((cmd : SanitizedCommand) × (decide cancelled g now i ≡ ok cmd))
        ↔ (cancelled ≡ false) × IsComplete i)
      × (decide cancelled g now i ≢ err money_tampered)
decide_total cancelled g now i = (
  (
    λ (cmd, h). let (live, complete, _) = decide-ok cancelled g now i cmd h in (live, complete),
    λ (live, complete). (
      command (gather g now i) (verdict (gather g now i)),
      rw live (decide_lem g now i complete),
    ),
  ),
  decide_not_tampered cancelled g now i,
)
