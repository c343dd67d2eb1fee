-- ===== src/Gatekeeper/MandateRules.antt =====
-- internal/gatekeeper/gatekeeper.go: the rules 8 to 12 of Decide, each a step on the working state.
use resilient_mesh_razorpayb.Base.{
  Bool, true, false, not, ◌&&◌, Option, none, some, if◌then◌else◌, ℤ, pos, ltb_ℤ, leb_ℤ,
}
use resilient_mesh_razorpayb.Text.{is_empty}
use resilient_mesh_razorpayb.Domain.Vocabulary.{mandate_cascade, no_rail, unchanged, network_token}
use resilient_mesh_razorpayb.Domain.Taxonomy.{
  MandateCategory, general, afa_ceiling_paisa, parse_mandate_category,
}
use resilient_mesh_razorpayb.Domain.Times.{Time}
use resilient_mesh_razorpayb.Domain.Records.{
  MandateRecord, mandate_cooling, pre_debit_notice, instrument_refreshed, afa_ceiling,
  mandate_halted, mandate_cycle_cap, delay_bounds, executable, max_recommended_delay,
}
use resilient_mesh_razorpayb.Gatekeeper.Config.{Config}
use resilient_mesh_razorpayb.Gatekeeper.Helpers.{rail_eq, notice_satisfied, seconds_until}
use resilient_mesh_razorpayb.Gatekeeper.State.{
  Decision, fire, veto, is_abstain, is_refresh, Facts, recurring, failing_rail,
}

-- The wait that the cooling window and the mandate's next eligible time ask for.
longer : ℤ → Option Time → Time → ℤ
longer base none now = base
longer base (some t) now = let wait = seconds_until t now in if ltb_ℤ base wait then wait else base

unfoldable pub required_wait : Config → Option MandateRecord → Time → ℤ
unfolding longer
required_wait cfg none now = cfg.mandate_cooling_seconds
required_wait cfg (some m) now = longer cfg.mandate_cooling_seconds m.next_eligible_at now

-- 8. RBI_MANDATE_COOLING
unfoldable pub impose_cooling : Facts → Decision → Decision
impose_cooling f d =
    let required = required_wait f.gate.cfg f.input.mandate f.now in
    if not (is_abstain d.action) && recurring f
    then (if ltb_ℤ max_recommended_delay required
        then veto mandate_cooling d
        else fire mandate_cooling (record d {
          action = mandate_cascade;
          rail = failing_rail f;
          pre_debit = true;
          delay = if ltb_ℤ d.delay required then required else d.delay;
        }))
    else d

-- 9. RBI_PRE_DEBIT_NOTICE
unfoldable pub require_notice : Facts → Decision → Decision
require_notice f d =
    if not (is_abstain d.action) && recurring f && not (notice_satisfied f.input.mandate f.now)
    then fire pre_debit_notice (record d { pre_debit = true })
    else d

-- The category of the mandate on record; the general one, which is the strictest, if there is none.
unfoldable pub category_of : Option MandateRecord → MandateCategory
category_of none = general
category_of (some m) = if is_empty m.category then general else parse_mandate_category m.category

-- 9a. RBI_AFA_CEILING
unfoldable pub cap_afa : Facts → Decision → Decision
cap_afa f d =
    if not (is_abstain d.action)
      && recurring f
      && ltb_ℤ (afa_ceiling_paisa (category_of f.input.mandate)) f.input.payment.amount
    then veto afa_ceiling d
    else d

abbrev pub is_halted : Option MandateRecord → Bool
is_halted none = false
is_halted (some m) = m.halted

-- 10. MANDATE_HALTED
unfoldable pub respect_halt : Facts → Decision → Decision
respect_halt f d = if is_halted f.input.mandate then veto mandate_halted d else d

abbrev pub cycle_spent : Config → Option MandateRecord → Bool
cycle_spent cfg none = false
cycle_spent cfg (some m) = leb_ℤ cfg.mandate_cycle_cap m.attempts_in_cycle

-- 11. MANDATE_CYCLE_CAP
unfoldable pub cap_cycle : Facts → Decision → Decision
cap_cycle f d = if cycle_spent f.gate.cfg f.input.mandate then veto mandate_cycle_cap d else d

-- 11a. INSTRUMENT_REFRESH_ALLOWED
unfoldable pub allow_refresh : Facts → Decision → Decision
allow_refresh f d =
    if is_refresh d.action
    then (if not (rail_eq (failing_rail f) no_rail)
        then fire instrument_refreshed
            (record d { rail = failing_rail f; presentation = network_token })
        else veto instrument_refreshed d)
    else d

clamp_delay : ℤ → ℤ
clamp_delay n =
    let low = if ltb_ℤ n (pos 0) then pos 0 else n in
    if ltb_ℤ max_recommended_delay low then max_recommended_delay else low

-- 12. DELAY_BOUNDS
unfoldable pub bound_delay : Facts → Decision → Decision
unfolding clamp_delay
bound_delay f d = fire delay_bounds (
    if executable d.action
    then record d { delay = clamp_delay d.delay }
    else record d { delay = pos 0; rail = no_rail; pre_debit = false; presentation = unchanged })
