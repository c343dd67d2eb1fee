-- ===== src/Witnesses/Gate.antt =====
-- internal/gatekeeper at concrete inputs: a failed UPI payment and a failed mandate charge.
use resilient_mesh_razorpayb.Domain.Vocabulary.{no_rail, rail_from_method}
use resilient_mesh_razorpayb.Domain.Records.{is_recurring}
use resilient_mesh_razorpayb.Gatekeeper.Decide.{decide}
use resilient_mesh_razorpayb.Base.{true, false, some, refl, ◌≡◌, ◌≢◌, pos, ok, ◌≤ℤ◌, take}
use resilient_mesh_razorpayb.Text.{codes}
use resilient_mesh_razorpayb.Domain.Vocabulary.{abstain, mandate_cascade}
use resilient_mesh_razorpayb.Domain.Records.{SanitizedCommand}
use resilient_mesh_razorpayb.Gatekeeper.Config.{with_defaults-IsSafe}
use resilient_mesh_razorpayb.Gatekeeper.Money.{IsComplete, decide-money}
use resilient_mesh_razorpayb.Domain.Times.{second}
use resilient_mesh_razorpayb.Gatekeeper.Helpers.{max_rails_considered}
use resilient_mesh_razorpayb.Base.{◌+ℤ◌, ◌*◌, pos_part, err, arith}
use resilient_mesh_razorpayb.Gatekeeper.MandateRules.{required_wait}
use resilient_mesh_razorpayb.Gatekeeper.Helpers.{Listed}
use resilient_mesh_razorpayb.Gatekeeper.Decide.{money_tampered}
use resilient_mesh_razorpayb.Domain.Records.{max_recommended_delay}
use resilient_mesh_razorpayb.Gatekeeper.Stops.{free_or_negative, decide_stops}
use resilient_mesh_razorpayb.Gatekeeper.Recurring.{decide_recurring, decide_not_early}
use resilient_mesh_razorpayb.Gatekeeper.Placement.{decide_morph, decide_retry, policy_wait, Patient}
use resilient_mesh_razorpayb.Gatekeeper.Bounds.{decide_schedule}
use resilient_mesh_razorpayb.Gatekeeper.Money.{decide_total}
use resilient_mesh_razorpayb.Base.{◌↔◌, ◌≤ℤ◌, ◌≢◌, take}
use resilient_mesh_razorpayb.Witnesses.Payments.{
  unset, gate, upi_payment, noon, tomorrow, decided, retried, morphed, worthless, mandate, charged,
  answers, actions, charged-executable, charged_recurring,
}

decide-money_example :
    ((decided retried).immutable_amount_paisa ≡ pos 49_900)
    × ((decided retried).currency ≡ codes "INR")
    × ((decided retried).payment_id ≡ codes "pay_1")
    × ((decided retried).order_id ≡ codes "order_1")
    × ((decided retried).incident_id ≡ codes "inc_1")
decide-money_example =
    decide-money false gate noon retried (decided retried) (answers retried (refl, refl))

decide_stops_example : (decided worthless).action ≡ abstain
decide_stops_example =
    decide_stops false gate noon worthless (decided worthless) (answers worthless (refl, refl))
      (free_or_negative (omega arith))

decide_total_example :
    (((cmd : SanitizedCommand) × (decide false gate noon retried ≡ ok cmd))
      ↔ (false ≡ false) × IsComplete retried)
    × (decide false gate noon retried ≢ err money_tampered)
decide_total_example = decide_total false gate noon retried

decide_recurring_example :
    ((decided charged).action ≡ mandate_cascade)
    × ((decided charged).target_rail ≡ rail_from_method (codes "upi"))
    × ((decided charged).pre_debit_notification_needed ≡ true)
    × (required_wait gate.cfg (some mandate) noon ≤ℤ (decided charged).delay_seconds)
    × (required_wait gate.cfg (some mandate) noon ≤ℤ max_recommended_delay)
decide_recurring_example =
    decide_recurring false gate noon charged (decided charged) (answers charged (refl, refl))
      charged_recurring charged-executable

decide_not_early_example :
    (pos 86_400 ≤ℤ (decided charged).delay_seconds) × (tomorrow ≤ℤ (decided charged).execute_after)
decide_not_early_example =
    decide_not_early false gate noon charged (decided charged) mandate tomorrow
      (answers charged (refl, refl)) (with_defaults-IsSafe unset) charged_recurring
      charged-executable refl refl

decide_morph_example :
    (is_recurring upi_payment ≡ false)
    × (true ≡ true)
    × ((decided morphed).delay_seconds ≡ pos 0)
    × Listed (decided morphed).target_rail (take max_rails_considered morphed.available_rails)
    × ((decided morphed).target_rail ≢ no_rail)
    × ((decided morphed).target_rail ≢ rail_from_method (codes "upi"))
decide_morph_example =
    decide_morph false gate noon morphed (decided morphed) (answers morphed (refl, refl))
      (actions.1)

decide_retry_example :
    (is_recurring upi_payment ≡ false)
    × (policy_wait gate retried ≤ℤ (decided retried).delay_seconds)
    × Patient (policy_wait gate retried) (pos 600) (decided retried).delay_seconds
decide_retry_example =
    decide_retry false gate noon retried (decided retried) (answers retried (refl, refl))
      (actions.0)

decide_schedule_example :
    (pos 0 ≤ℤ (decided retried).delay_seconds)
    × ((decided retried).delay_seconds ≤ℤ max_recommended_delay)
    × ((decided retried).decided_at ≡ noon)
    × ((decided retried).execute_after
        ≡ noon +ℤ pos (pos_part (decided retried).delay_seconds * second))
decide_schedule_example =
    decide_schedule false gate noon retried (decided retried) (answers retried (refl, refl))
