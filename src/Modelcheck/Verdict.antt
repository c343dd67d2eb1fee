-- ===== src/Modelcheck/Verdict.antt =====
-- internal/modelcheck/bfs.go: the report of a run against the real gate.
use resilient_mesh_razorpayb.Base.{
  ◌≡◌, refl, ◌⊎◌, Bool, true, false, if◌then◌else◌, All, ℤ, pos, ok,
}
use resilient_mesh_razorpayb.Domain.Vocabulary.{card, rail_from_method}
use resilient_mesh_razorpayb.Domain.Taxonomy.{
  MandateCategory, parse_mandate_category, insurance, mutual_fund, credit_card_bill,
  afa_ceiling_paisa, general,
}
use resilient_mesh_razorpayb.Text.{is_empty, trim_space}
use resilient_mesh_razorpayb.Domain.Fold.{fold_lower}
use resilient_mesh_razorpayb.Domain.Times.{Time}
use resilient_mesh_razorpayb.Domain.Records.{SanitizedCommand}
use resilient_mesh_razorpayb.Gatekeeper.Config.{IsSafe}
use resilient_mesh_razorpayb.Gatekeeper.State.{Gate}
use resilient_mesh_razorpayb.Gatekeeper.MandateRules.{category_of}
use resilient_mesh_razorpayb.Gatekeeper.Decide.{decide}
use resilient_mesh_razorpayb.Gatekeeper.Money.{IsComplete}
use resilient_mesh_razorpayb.Modelcheck.Space.{State, at, categories, category_name}
use resilient_mesh_razorpayb.Modelcheck.Input.{gate_input, payment, mandate}
use resilient_mesh_razorpayb.Modelcheck.Checks.{invariants, ceiling_of_text, category_text}
use resilient_mesh_razorpayb.Modelcheck.Passing.{
  amount_pinned_holds, recurring_cooling_holds, attempt_cap_holds, afa_ceiling_holds,
  closed_action_set_holds, refresh_preserves_terms_holds, executable_names_rail_holds,
  schedule_bounded_holds,
}

-- The gate and the check agree on the ceiling of a category that is written out.
category_ceiling :
    (c : MandateCategory)
    → afa_ceiling_paisa
        (if is_empty (category_name c) then general else parse_mandate_category (category_name c))
      ≡ ceiling_of_text (category_name c)
unfolding afa_ceiling_paisa parse_mandate_category ceiling_of_text category_name fold_lower
    trim_space
category_ceiling general = refl
category_ceiling insurance = refl
category_ceiling mutual_fund = refl
category_ceiling credit_card_bill = refl

pub gate_input-IsComplete : (now : Time) (s : State) → IsComplete (gate_input now s)
unfolding gate_input payment
gate_input-IsComplete now s = (refl, refl)

module _ (g : Gate) (now : Time) (s : State) (cmd : SanitizedCommand)
    (h : decide false g now (gate_input now s) ≡ ok cmd) where
  on_card : rail_from_method (gate_input now s).payment.method ≡ card
  unfolding gate_input payment rail_from_method
  on_card = refl

  one_ceiling :
      afa_ceiling_paisa (category_of (gate_input now s).mandate)
      ≡ ceiling_of_text (category_text (gate_input now s).mandate)
  unfolding gate_input mandate category_of
  one_ceiling = category_ceiling (at general categories s.category)

  -- The gate passes every check in every state of the space.
  pub invariants_hold :
      IsSafe g.cfg
      → (reported : ℤ) → (reported ≡ pos 0) ⊎ (reported ≡ g.cfg.max_attempts)
      → All (λ (b : Bool). b ≡ true) (invariants reported (gate_input now s) cmd)
  unfolding invariants
  invariants_hold safe reported r =
      let input = gate_input now s in
      (
        amount_pinned_holds g now input cmd h,
        (
          recurring_cooling_holds g now input cmd h safe,
          (
            attempt_cap_holds g now input cmd h safe reported r,
            (
              afa_ceiling_holds g now input cmd h one_ceiling,
              (
                closed_action_set_holds g now input cmd h,
                (
                  refresh_preserves_terms_holds g now input cmd h on_card,
                  (
                    executable_names_rail_holds g now input cmd h on_card,
                    (schedule_bounded_holds g now input cmd h, tt),
                  ),
                ),
              ),
            ),
          ),
        ),
      )
