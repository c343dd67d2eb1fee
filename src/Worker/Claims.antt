-- ===== src/Worker/Claims.antt =====
-- internal/worker/worker.go: what Handle adds to the log, under the claim of an incident.
use resilient_mesh_razorpayb.Domain.Records.{
  DiagnosticProposal, DiagnosticProposal, PaymentEntity, MandateRecord, SanitizedCommand,
  executable,
}
use resilient_mesh_razorpayb.Base.{
  ℕ, ◌≡◌, refl, ◌∙◌, inl, inr, Bool, true, false, Option, arith, if◌then◌else◌, Bool-cases, ℤ, ◌≤ℤ◌,
  ltb_ℤ, Result, ok, err,
}
use resilient_mesh_razorpayb.Domain.Vocabulary.{abstain}
use resilient_mesh_razorpayb.Gatekeeper.Decide.{decide, GateError}
use resilient_mesh_razorpayb.Gatekeeper.Money.{decide-money}
use resilient_mesh_razorpayb.Gatekeeper.Stops.{attempts_spent, decide_stops}
use resilient_mesh_razorpayb.Store.Checks.{StoreError}
use resilient_mesh_razorpayb.Store.Incidents.{Incident}
use resilient_mesh_razorpayb.Store.Rows.{update_incident_state-KeepsCounts}
use resilient_mesh_razorpayb.Domain.Times.{Time}
use resilient_mesh_razorpayb.Worker.State.{
  at_gate, World, Pool, Surroundings, Answer, Event, audited, gate_decision, policy_decision,
  diagnosis,
}
use resilient_mesh_razorpayb.Worker.Handle.{emit_if, enact, decide_on, pursue, gate_input}
use resilient_mesh_razorpayb.Worker.Steps.{Step, Only, is_call, stay, then_step, more, emitted}
use resilient_mesh_razorpayb.Worker.Actions.{run_statement-Step, conclude-Step, execute-Step}

-- A command on an incident: it names the incident, carries the amount of its row, and its attempt is
-- within the gate's maximum.
pub record IsSound (p : Pool) (i : Incident) (n : ℤ) (cmd : SanitizedCommand) : Type 0 where
  pub names : cmd.incident_id ≡ i.id
  pub amount : cmd.immutable_amount_paisa ≡ i.amount_paisa
  pub within : n ≤ℤ p.gate.cfg.max_attempts

emit_if-Step :
    (Q : SanitizedCommand → Type 0) (b : Bool) (x : Event) (w : World)
    → is_call x ≡ 0
    → Only Q x
    → Step Q 0 w (emit_if b x w)
emit_if-Step Q true x w h q = emitted Q x w h q
emit_if-Step Q false x w h q = stay Q w

tested-Step :
    (Q : SanitizedCommand → Type 0) (n : ℕ) (w : World) (b : Bool) (x y : World × Answer)
    → (b ≡ true → Step Q n w x.0)
    → Step Q n w y.0
    → Step Q n w (if b then x else y).0
tested-Step Q n w true x y h k = h refl
tested-Step Q n w false x y h k = k

executable-abstain : (cmd : SanitizedCommand) → cmd.action ≡ abstain → executable cmd.action ≡ false
unfolding executable
executable-abstain cmd h = rw h refl

module _ (p : Pool) (e : Surroundings) (i : Incident) where
  enact-Step :
      (Q : SanitizedCommand → Type 0) (chosen : Bool) (r : Result GateError SanitizedCommand)
      (due : Bool) (w : World)
      → ((cmd : SanitizedCommand) → r ≡ ok cmd → executable cmd.action ≡ true → Q cmd)
      → Step Q 1 w (enact p e i chosen r due w).0
  unfolding enact
  enact-Step Q chosen (err x) due w h = more Q (omega arith) (stay Q w)
  enact-Step Q chosen (ok cmd) due w h =
      let first = emit_if-Step Q chosen (audited policy_decision i.id) w refl tt in
      let told = then_step Q first (emitted Q (audited gate_decision i.id) _ refl tt) in
      tested-Step Q 1 w (executable cmd.action) _ _
        (λ x. then_step Q told (execute-Step Q p e i cmd due _ (h cmd refl x)))
        (conclude-Step Q 1 w _ _ (λ v. stay Q v)
          (more Q (omega arith) (
            then_step Q told
              (run_statement-Step Q (e.reply _) _ _ (update_incident_state-KeepsCounts _ _ _ _)))))

  decide-IsSound :
      (payment : PaymentEntity) (n : ℤ) (d : DiagnosticProposal) (live : Bool)
      (m : Option MandateRecord) (now : Time) (cmd : SanitizedCommand)
      → payment.amount ≡ i.amount_paisa
      → decide e.cancelled p.gate now (gate_input e i i.id payment d live n m) ≡ ok cmd
      → executable cmd.action ≡ true
      → IsSound p i n cmd
  unfolding gate_input
  decide-IsSound payment n d live m now cmd a h x =
      let input = gate_input e i i.id payment d live n m in
      let money = decide-money e.cancelled p.gate now input cmd h in
      record {
        names = money.4;
        amount = money.0 ∙ a;
        within = elim (Bool-cases (ltb_ℤ p.gate.cfg.max_attempts n)) [
          | inl past ↦
              let halted =
                decide_stops e.cancelled p.gate now input cmd h (attempts_spent (ground arith)) in
              let refused = executable-abstain cmd halted in absurd cc
          | inr in_time ↦ ground arith
        ];
      }

  decide_on-Step :
      (payment : PaymentEntity) (n : ℤ) (due : Bool) (r : Result StoreError (Option MandateRecord))
      (w : World)
      → payment.amount ≡ i.amount_paisa
      → Step (IsSound p i n) 1 w (decide_on p e i payment n due r w).0
  unfolding decide_on
  decide_on-Step payment n due (err x) w a =
      more (IsSound p i n) (omega arith) (stay (IsSound p i n) w)
  decide_on-Step payment n due (ok m) w a =
      enact-Step (IsSound p i n) _ _ due w
        (λ cmd. decide-IsSound payment n _ _ m (e.now at_gate) cmd a)

  pub pursue-Step :
      (payment : PaymentEntity) (n : ℤ) (due : Bool) (w : World)
      → payment.amount ≡ i.amount_paisa
      → Step (IsSound p i n) 1 w (pursue p e i payment n due w).0
  unfolding pursue
  pursue-Step payment n due w a =
      let Q = IsSound p i n in
      let told = emit_if-Step Q _ (audited diagnosis i.id) w refl tt in
      then_step Q told (decide_on-Step payment n due _ _ a)
