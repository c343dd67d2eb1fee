-- ===== src/Modelcheck/Checks.antt =====
-- internal/modelcheck/invariants.go: the properties asserted at every state. A check is true where the
-- source returns no detail.
use resilient_mesh_razorpayb.Base.{
  ℕ, suc, ◌-◌, ◌*◌, Bool, true, not, ◌&&◌, ◌||◌, Option, none, some, List, [], ◌∷◌, ltb,
  if◌then◌else◌, list_eq, ℤ, pos, negsuc, ◌+ℤ◌, ltb_ℤ, leb_ℤ, eqb_ℤ,
}
use resilient_mesh_razorpayb.Text.{Bytes, codes}
use resilient_mesh_razorpayb.Domain.Vocabulary.{
  valid_rail, valid_action, action_name, rail_name, no_rail,
}
use resilient_mesh_razorpayb.Domain.Taxonomy.{afa_ceiling_general_paisa, afa_ceiling_elevated_paisa}
use resilient_mesh_razorpayb.Domain.Times.{Duration, min_duration, max_duration, second}
use resilient_mesh_razorpayb.Domain.Records.{
  GateInput, MandateRecord, SanitizedCommand, is_recurring, executable, max_recommended_delay,
}
use resilient_mesh_razorpayb.Gatekeeper.Config.{default_mandate_cooling_seconds}
use resilient_mesh_razorpayb.Gatekeeper.Helpers.{rail_eq}
use resilient_mesh_razorpayb.Gatekeeper.State.{is_refresh}
use resilient_mesh_razorpayb.Modelcheck.Input.{failing_rail}

unfoldable pub amount_pinned : GateInput → SanitizedCommand → Bool
amount_pinned i cmd =
    eqb_ℤ cmd.immutable_amount_paisa i.payment.amount && list_eq cmd.currency i.payment.currency

unfoldable pub recurring_cooling : GateInput → SanitizedCommand → Bool
recurring_cooling i cmd =
    if not (is_recurring i.payment) || not (executable cmd.action)
    then true
    else not (ltb_ℤ cmd.delay_seconds default_mandate_cooling_seconds)
      && cmd.pre_debit_notification_needed

-- The first argument is the ceiling that the first decision of the run reported.
unfoldable pub attempt_cap : ℤ → SanitizedCommand → Bool
attempt_cap reported cmd =
    not (leb_ℤ cmd.max_attempts (pos 0))
    && not (ltb_ℤ (pos 0) reported && not (eqb_ℤ cmd.max_attempts reported))
    && not (ltb_ℤ cmd.attempt_number (pos 0))
    && not (ltb_ℤ cmd.max_attempts cmd.attempt_number)

-- MandateCategory.AFACeilingPaisa, which compares the text exactly.
unfoldable pub ceiling_of_text : Bytes → ℤ
ceiling_of_text s =
    if list_eq s (codes "insurance")
      || list_eq s (codes "mutual_fund")
      || list_eq s (codes "credit_card_bill")
    then afa_ceiling_elevated_paisa
    else afa_ceiling_general_paisa

abbrev pub category_text : Option MandateRecord → Bytes
category_text none = codes "general"
category_text (some m) = m.category

unfoldable pub afa_ceiling : GateInput → SanitizedCommand → Bool
afa_ceiling i cmd =
    if not (is_recurring i.payment) || not (executable cmd.action)
    then true
    else not (ltb_ℤ (ceiling_of_text (category_text i.mandate)) cmd.immutable_amount_paisa)

unfoldable pub closed_action_set : SanitizedCommand → Bool
closed_action_set cmd =
    valid_action (action_name cmd.action) && valid_rail (rail_name cmd.target_rail)

unfoldable pub refresh_preserves_terms : GateInput → SanitizedCommand → Bool
refresh_preserves_terms i cmd =
    if not (is_refresh cmd.action)
    then true
    else eqb_ℤ cmd.immutable_amount_paisa i.payment.amount
      && list_eq cmd.currency i.payment.currency
      && (rail_eq cmd.target_rail no_rail || rail_eq cmd.target_rail failing_rail)

unfoldable pub executable_names_rail : SanitizedCommand → Bool
executable_names_rail cmd =
    if not (executable cmd.action)
    then true
    else not (rail_eq cmd.target_rail no_rail) && valid_rail (rail_name cmd.target_rail)

-- int64(1<<63-1) / int64(time.Second)
abbrev max_seconds : ℕ
max_seconds = 9_223_372_036

-- secondsDuration
unfoldable pub saturated_seconds : ℤ → Duration
saturated_seconds (pos n) = if ltb max_seconds n then max_duration else pos (n * second)
saturated_seconds (negsuc n) =
    if ltb max_seconds (suc n) then min_duration else negsuc (suc n * second - 1)

unfoldable pub schedule_bounded : SanitizedCommand → Bool
schedule_bounded cmd =
    not (ltb_ℤ cmd.delay_seconds (pos 0))
    && not (ltb_ℤ max_recommended_delay cmd.delay_seconds)
    && eqb_ℤ cmd.execute_after (cmd.decided_at +ℤ saturated_seconds cmd.delay_seconds)
    && not (not (executable cmd.action) && not (eqb_ℤ cmd.delay_seconds (pos 0)))

-- The invariants, in the order in which they are asserted.
unfoldable pub invariants : ℤ → GateInput → SanitizedCommand → List Bool
invariants reported i cmd =
    amount_pinned i cmd
    ∷ recurring_cooling i cmd
    ∷ attempt_cap reported cmd
    ∷ afa_ceiling i cmd
    ∷ closed_action_set cmd
    ∷ refresh_preserves_terms i cmd
    ∷ executable_names_rail cmd
    ∷ schedule_bounded cmd
    ∷ []
