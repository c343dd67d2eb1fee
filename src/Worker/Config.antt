-- ===== src/Worker/Config.antt =====
-- internal/worker/worker.go: Config, the retry budget, and the time at which a scheduled command is
-- taken up again. Dividing a wait by the scale of a demonstration rounds a product of doubles, and is
-- a parameter.
use resilient_mesh_razorpayb.Base.{
  suc, ◌-◌, ◌*◌, ◌/◌, Bool, true, false, ◌||◌, if◌then◌else◌, any, ℤ, pos, negsuc, ◌+ℤ◌, ltb_ℤ,
  leb_ℤ, eqb_ℤ, Float64, is_nan, leb_float, ltb_float, float_one,
}
use resilient_mesh_razorpayb.Text.{Bytes, is_empty, codes}
use resilient_mesh_razorpayb.Domain.Times.{Time, Duration, second, time_sub}
use resilient_mesh_razorpayb.Domain.Records.{
  SanitizedCommand, Rule, mandate_cooling, pre_debit_notice, afa_ceiling,
}

pub record Config : Type 0 where
  pub concurrency : ℤ
  pub group : Bytes
  pub batch_size : ℤ
  pub read_block : Duration
  pub reclaim_interval : Duration
  pub reclaim_min_idle : Duration
  pub max_deliveries : ℤ
  pub session_ttl : Duration
  pub demo_time_scale : Float64
  pub sweep_interval : Duration
  pub sweep_batch : ℤ
  pub retry_budget_per_minute : ℤ

abbrev or_default : ℤ → ℤ → ℤ
or_default v d = if leb_ℤ v (pos 0) then d else v

abbrev scale_or_one : Float64 → Float64
scale_or_one s = if ltb_float s float_one || is_nan s then float_one else s

-- Config.withDefaults
unfoldable pub with_defaults : Config → Config
with_defaults c = record {
  concurrency = or_default c.concurrency (pos 4);
  group = if is_empty c.group then codes "mesh-workers" else c.group;
  batch_size = or_default c.batch_size (pos 16);
  read_block = or_default c.read_block (pos (2 * second));
  reclaim_interval = or_default c.reclaim_interval (pos (30 * second));
  reclaim_min_idle = or_default c.reclaim_min_idle (pos (60 * second));
  max_deliveries = or_default c.max_deliveries (pos 5);
  session_ttl = or_default c.session_ttl (pos (15 * 60 * second));
  demo_time_scale = scale_or_one c.demo_time_scale;
  sweep_interval = or_default c.sweep_interval (pos (5 * second));
  sweep_batch = or_default c.sweep_batch (pos 128);
  retry_budget_per_minute = or_default c.retry_budget_per_minute (pos 600);
}

-- The part of Pool that its mutex guards.
pub record Budget : Type 0 where
  pub window : Time
  pub spent : ℤ

-- Time.Truncate(time.Minute), which rounds down.
unfoldable pub truncate_minute : Time → Time
truncate_minute (pos n) = pos (n / (60 * second) * (60 * second))
truncate_minute (negsuc n) = negsuc (suc (n / (60 * second)) * (60 * second) - 1)

unfoldable pub in_window : Time → Budget → Budget
in_window now b = if eqb_ℤ now b.window then b else record { window = now; spent = pos 0 }

-- spendRetryBudget: whether a unit was left, and the budget after it.
unfoldable pub spend_retry_budget : Config → Time → Budget → Bool × Budget
unfolding in_window truncate_minute
spend_retry_budget c now b =
    let current = in_window (truncate_minute now) b in
    if leb_ℤ c.retry_budget_per_minute current.spent
    then (false, current)
    else (true, record current { spent = current.spent +ℤ pos 1 })

-- The name of a rule starts with RBI_.
abbrev is_rbi : Rule → Bool
is_rbi mandate_cooling = true
is_rbi pre_debit_notice = true
is_rbi afa_ceiling = true
is_rbi _ = false

-- regulatoryDelay
unfoldable pub regulatory_delay : SanitizedCommand → Bool
regulatory_delay cmd =
    if cmd.pre_debit_notification_needed then true else any is_rbi cmd.applied_invariants

-- Pool.dueAt, for the division by the scale.
unfoldable pub due_at : (Float64 → Duration → Duration) → Config → Time → SanitizedCommand → Time
unfolding regulatory_delay
due_at divide c now cmd =
    let wait = time_sub cmd.execute_after now in
    let compressed = divide c.demo_time_scale wait in
    if leb_float c.demo_time_scale float_one
    then cmd.execute_after
    else if regulatory_delay cmd
    then cmd.execute_after
    else if leb_ℤ wait (pos 0)
    then cmd.execute_after
    else now +ℤ (if ltb_ℤ compressed (pos second) then pos second else compressed)
