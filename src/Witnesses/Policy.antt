-- ===== src/Witnesses/Policy.antt =====
-- internal/policy at concrete inputs: a random source that always draws zero.
use resilient_mesh_razorpayb.Base.{
  ◌≡◌, refl, false, some, arith, ℤ, pos, ◌≤ℤ◌, ◌*◌, ◌^◌, ◌-◌, Float64, float_one,
}
use resilient_mesh_razorpayb.Domain.Vocabulary.{issuer_outage, async_retry}
use resilient_mesh_razorpayb.Domain.Times.{Duration, second}
use resilient_mesh_razorpayb.Domain.Records.{SanitizedCommand, executable}
use resilient_mesh_razorpayb.Gatekeeper.Decide.{new, gather, verdict, command}
use resilient_mesh_razorpayb.Gatekeeper.State.{Gate}
use resilient_mesh_razorpayb.Gatekeeper.Config.{with_defaults}
use resilient_mesh_razorpayb.Gatekeeper.Money.{decide_lem}
use resilient_mesh_razorpayb.Policy.Backoff.{
  backoff_ceiling, first_seconds, outage_depth, limit_seconds,
}
use resilient_mesh_razorpayb.Policy.Ceiling.{backoff_ceiling_lem, Draws, min_ℕ}
use resilient_mesh_razorpayb.Base.{All, List, [], ◌∷◌, ◌≢◌, take}
use resilient_mesh_razorpayb.Text.{Bytes, codes}
use resilient_mesh_razorpayb.Domain.Vocabulary.{upi_intent, wallet, no_rail}
use resilient_mesh_razorpayb.Policy.Rails.{
  Snapshots, choose_rail, score, tally, candidates, max_rails_scanned,
}
use resilient_mesh_razorpayb.Policy.Ranking.{AtLeast}
use resilient_mesh_razorpayb.Policy.Choice.{Eligible, choose_rail-Eligible, choose_rail-AtLeast}
use resilient_mesh_razorpayb.Domain.Vocabulary.{rail_of_name}
use resilient_mesh_razorpayb.Gatekeeper.Helpers.{rail_eq}
use resilient_mesh_razorpayb.Text.{starts_with, to_lower}
use resilient_mesh_razorpayb.Policy.Gated.{engine, decide_patient}
use resilient_mesh_razorpayb.Policy.Value.{
  CostModel, expected_value, exact_value, expected_value_lem,
}
use resilient_mesh_razorpayb.Witnesses.Payments.{unset, telemetry, noon, retried}
use resilient_mesh_razorpayb.Gatekeeper.Decide.{settle, mandates, place, vetoes}
use resilient_mesh_razorpayb.Gatekeeper.State.{begin, read_proposal}
use resilient_mesh_razorpayb.Gatekeeper.MandateRules.{
  bound_delay, allow_refresh, cap_cycle, respect_halt, cap_afa, require_notice, impose_cooling,
}
use resilient_mesh_razorpayb.Gatekeeper.Rules.{
  schedule, require_listed_rail, require_session, require_recoverable, require_confidence,
  stop_attempts, halt_terminal, pin_amount,
}
use resilient_mesh_razorpayb.Domain.Vocabulary.{
  parse_action, action_of_name, valid_action, rail_from_method, parse_failure_class, class_of_name,
  recoverable,
}
use resilient_mesh_razorpayb.Domain.Fold.{fold_upper, normalise_code, fold_lower}
use resilient_mesh_razorpayb.Text.{trim_space}
use resilient_mesh_razorpayb.Domain.Records.{is_recurring}
use resilient_mesh_razorpayb.Domain.Taxonomy.{is_terminal_decline, has_code}
use resilient_mesh_razorpayb.Domain.Records.{min_confidence_to_act_on}
use resilient_mesh_razorpayb.Gatekeeper.Helpers.{chargeable}
use resilient_mesh_razorpayb.Policy.Telemetry.{is_degraded, clamp_count, successes_of, clamp64}
use resilient_mesh_razorpayb.Domain.Times.{wrap_int64}
use resilient_mesh_razorpayb.Base.{◌-ℤ◌}

abbrev zero_draw : Duration → Duration
zero_draw n = pos 0

zero_draw-Draws : Draws zero_draw
zero_draw-Draws n h = (omega arith, h)

backoff_ceiling_lem_example :
    backoff_ceiling (pos 3) issuer_outage telemetry
    ≡ pos (min_ℕ (first_seconds issuer_outage telemetry * 2 ^ (3 - 1)) limit_seconds * second)
backoff_ceiling_lem_example = backoff_ceiling_lem 3 issuer_outage telemetry (omega arith)

-- 900 seconds times 2, for an issuer that is degraded.
ceiling_of_outage : first_seconds issuer_outage telemetry ≡ 1800
unfolding first_seconds outage_depth is_degraded clamp_count successes_of
ceiling_of_outage = refl

abbrev gate_with : Gate
gate_with = new (some (engine zero_draw)) unset

abbrev answer : SanitizedCommand
answer = command (gather gate_with noon retried) (verdict (gather gate_with noon retried))

retries : answer.action ≡ async_retry
unfolding command verdict settle mandates place vetoes begin read_proposal bound_delay allow_refresh
    cap_cycle respect_halt cap_afa require_notice impose_cooling schedule require_listed_rail
    require_session require_recoverable require_confidence stop_attempts halt_terminal pin_amount
    with_defaults parse_action action_of_name fold_upper trim_space valid_action rail_from_method
    is_recurring parse_failure_class class_of_name recoverable is_terminal_decline has_code
    normalise_code fold_lower executable float_one min_confidence_to_act_on chargeable new
retries = refl

decide_patient_example : pos 5 ≤ℤ answer.delay_seconds
decide_patient_example =
    decide_patient zero_draw unset noon retried answer zero_draw-Draws
      (decide_lem gate_with noon retried (refl, refl)) retries

abbrev costs : CostModel
costs = record {
  gateway_fee_per_attempt_paisa = pos 250;
  comms_cost_per_message_paisa = pos 60;
  compliance_penalty_paisa = pos 50_000;
  session_friction_paisa = pos 60;
}

abbrev certain : Float64 → ℤ
certain p = pos 10_000

expected_value_lem_example :
    expected_value certain false (pos 49_900) float_one (pos 2) costs
    ≡ exact_value certain false (pos 49_900) float_one (pos 2) costs
expected_value_lem_example = expected_value_lem certain false (pos 49_900) float_one (pos 2) costs

-- 49,900 paisa, less two fees and the friction.
worth : expected_value certain false (pos 49_900) float_one (pos 2) costs ≡ pos 49_340
unfolding expected_value wrap_int64 ◌-ℤ◌ clamp64 float_one
worth = refl

-- Every card issuer on record is degraded, and nothing is known of the wallets.
abbrev snapshots : Snapshots
snapshots = (codes "card:HDFC", telemetry) ∷ []

abbrev rails : List Bytes
rails = codes "card" ∷ codes "wallet" ∷ codes "none" ∷ []

chooses : choose_rail false noon upi_intent rails snapshots ≡ wallet
unfolding choose_rail rail_of_name rail_eq starts_with to_lower is_degraded
chooses = refl

chosen : choose_rail false noon upi_intent rails snapshots ≢ no_rail
chosen h = cc (chooses, h)

choose_rail-Eligible_example :
    (false ≡ false)
    × Eligible upi_intent snapshots
        (take max_rails_scanned rails)
        (choose_rail false noon upi_intent rails snapshots)
choose_rail-Eligible_example = choose_rail-Eligible noon upi_intent snapshots false rails chosen

choose_rail-AtLeast_example :
    let r = choose_rail false noon upi_intent rails snapshots in
    All
      (AtLeast (score r (tally noon r snapshots)))
      (candidates noon upi_intent snapshots [] (take max_rails_scanned rails))
choose_rail-AtLeast_example = choose_rail-AtLeast noon upi_intent snapshots rails chosen
