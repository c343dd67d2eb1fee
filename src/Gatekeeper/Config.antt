-- ===== src/Gatekeeper/Config.antt =====
-- internal/gatekeeper/gatekeeper.go: Config and its defaults.
use resilient_mesh_razorpayb.Base.{
  ◌≡◌, true, ◌||◌, arith, if◌then◌else◌, ℤ, pos, ◌≤ℤ◌, ltb_ℤ, leb_ℤ, Float64, is_nan, leb_float,
  ltb_float, float_zero, float_one,
}
use resilient_mesh_razorpayb.Domain.Records.{max_recommended_delay, min_confidence_to_act_on}

abbrev pub default_max_attempts : ℤ
default_max_attempts = pos 3

abbrev pub default_mandate_cooling_seconds : ℤ
default_mandate_cooling_seconds = pos 86_400

abbrev pub default_mandate_cycle_cap : ℤ
default_mandate_cycle_cap = pos 3

pub record Config : Type 0 where
  pub max_attempts : ℤ
  pub mandate_cooling_seconds : ℤ
  pub mandate_cycle_cap : ℤ
  pub min_confidence : Float64

default_count : ℤ → ℤ → ℤ
default_count d n = if leb_ℤ n (pos 0) then d else n

-- At least RBI's 24 hours, and schedulable.
default_cooling : ℤ → ℤ
default_cooling s =
    let floored =
      if ltb_ℤ s default_mandate_cooling_seconds then default_mandate_cooling_seconds else s in
    if ltb_ℤ max_recommended_delay floored then max_recommended_delay else floored

default_confidence : Float64 → Float64
default_confidence c =
    let set = if is_nan c || leb_float c float_zero then min_confidence_to_act_on else c in
    if ltb_float float_one set then float_one else set

unfoldable pub with_defaults : Config → Config
unfolding default_count default_cooling default_confidence
with_defaults c = record {
  max_attempts = default_count default_max_attempts c.max_attempts;
  mandate_cooling_seconds = default_cooling c.mandate_cooling_seconds;
  mandate_cycle_cap = default_count default_mandate_cycle_cap c.mandate_cycle_cap;
  min_confidence = default_confidence c.min_confidence;
}

-- What a configuration in force promises.
pub record IsSafe (c : Config) : Type 0 where
  pub attempts_positive : pos 1 ≤ℤ c.max_attempts
  pub cooling_floor : default_mandate_cooling_seconds ≤ℤ c.mandate_cooling_seconds
  pub cooling_schedulable : c.mandate_cooling_seconds ≤ℤ max_recommended_delay
  pub cycle_cap_positive : pos 1 ≤ℤ c.mandate_cycle_cap
  pub confidence_positive : ltb_float float_zero c.min_confidence ≡ true
  pub confidence_reachable : leb_float c.min_confidence float_one ≡ true

-- Whatever a deployment sets, NaN and infinities included, the configuration in force has a positive
-- attempt ceiling and cycle cap, a cooling window between 24 hours and the longest schedulable
-- delay, and a confidence floor above 0 and at most 1.
pub with_defaults-IsSafe : (c : Config) → IsSafe (with_defaults c)
unfolding with_defaults float_one min_confidence_to_act_on
with_defaults-IsSafe c = ground arith

-- A safe configuration is used as it is.
with_defaults-safe : (c : Config) → IsSafe c → with_defaults c ≡ c
unfolding with_defaults
with_defaults-safe c s = ground arith

-- Defaulting a configuration twice is the same as defaulting it once.
pub with_defaults_idem : (c : Config) → with_defaults (with_defaults c) ≡ with_defaults c
with_defaults_idem c = with_defaults-safe (with_defaults c) (with_defaults-IsSafe c)
