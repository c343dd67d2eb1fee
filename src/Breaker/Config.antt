-- ===== src/Breaker/Config.antt =====
-- internal/breaker/breaker.go: Config, its defaults, and the script arguments that New derives.
use resilient_mesh_razorpayb.Base.{
  ◌*◌, ◌^◌, ℕ, true, ◌&&◌, ◌≡◌, ◌≤◌, arith, if◌then◌else◌, ℤ, pos, pos_part, ◌≤ℤ◌, ltb_ℤ, Float64,
  fin, leb_float, ltb_float, float_zero, float_one,
}
use resilient_mesh_razorpayb.Text.{Bytes, codes, is_empty}
use resilient_mesh_razorpayb.Domain.Times.{Duration, second}

-- Config without OnTransition and Logger, which only observe.
pub record Config : Type 0 where
  pub trip_rate : Float64
  pub min_samples : ℤ
  pub cooldown : Duration
  pub half_open_probes : ℤ
  pub window_size : ℤ
  pub namespace : Bytes

abbrev hour : ℕ
hour = 3600 * second

abbrev pub max_window_size : ℤ
max_window_size = pos 10_000

abbrev pub max_half_open_probes : ℤ
max_half_open_probes = pos 1_000

abbrev pub max_cooldown : Duration
max_cooldown = pos (24 * hour)

-- DefaultConfig: 0.20 is the float64 7205759403792794 * 2 ^ -55.
unfoldable pub default_config : Config
default_config = record {
  trip_rate = fin (pos (7_205_759_403_792_794 * 2 ^ 1019));
  min_samples = pos 10;
  cooldown = pos (60 * second);
  half_open_probes = pos 3;
  window_size = pos 50;
  namespace = codes "mesh:breaker";
}

-- Below one, the default; above the ceiling, the ceiling.
bounded : ℤ → ℤ → ℤ → ℤ
bounded default ceiling n =
    let set = if ltb_ℤ n (pos 1) then default else n in if ltb_ℤ ceiling set then ceiling else set

sampled : ℤ → ℤ → ℤ
sampled window n =
    let set = if ltb_ℤ n (pos 1) then pos 10 else n in if ltb_ℤ window set then window else set

rated : Float64 → Float64
unfolding default_config
rated r = if ltb_float float_zero r && leb_float r float_one then r else default_config.trip_rate

unfoldable pub with_defaults : Config → Config
unfolding bounded sampled rated default_config
with_defaults c =
    let window = bounded default_config.window_size max_window_size c.window_size in
    record {
      trip_rate = rated c.trip_rate;
      min_samples = sampled window c.min_samples;
      cooldown = bounded default_config.cooldown max_cooldown c.cooldown;
      half_open_probes =
          bounded default_config.half_open_probes max_half_open_probes c.half_open_probes;
      window_size = window;
      namespace = if is_empty c.namespace then default_config.namespace else c.namespace;
    }

-- What a configuration in force promises.
pub record IsUsable (c : Config) : Type 0 where
  pub rate_positive : ltb_float float_zero c.trip_rate ≡ true
  pub rate_reachable : leb_float c.trip_rate float_one ≡ true
  pub samples_positive : pos 1 ≤ℤ c.min_samples
  pub samples_reachable : c.min_samples ≤ℤ c.window_size
  pub window_bounded : c.window_size ≤ℤ max_window_size
  pub cooldown_positive : pos 1 ≤ℤ c.cooldown
  pub cooldown_bounded : c.cooldown ≤ℤ max_cooldown
  pub probes_positive : pos 1 ≤ℤ c.half_open_probes
  pub probes_bounded : c.half_open_probes ≤ℤ max_half_open_probes

-- Whatever is configured, NaN included, the trip rate in force is above 0 and at most 1, the
-- evidence floor is at least one outcome and at most the window, the cooldown lasts between a
-- nanosecond and a day, at least one probe is admitted, and the window and the probes keep their
-- ceilings.
pub with_defaults-IsUsable : (c : Config) → IsUsable (with_defaults c)
unfolding with_defaults float_one default_config
with_defaults-IsUsable c = ground arith

-- The lifetime of a key in Redis: ten cooldowns, from 15 minutes to 7 days.
unfoldable pub key_ttl : Duration → Duration
key_ttl cooldown =
    let ten = pos (10 * pos_part cooldown) in
    let low = if ltb_ℤ ten (pos (900 * second)) then pos (900 * second) else ten in
    if ltb_ℤ (pos (168 * hour)) low then pos (168 * hour) else low

-- The keys of a breaker outlive its cooldown: whatever is configured, a key lives at least seven times
-- as long as the cooldown in force.
pub key_ttl-covers :
    (c : Config)
    → 7 * pos_part (with_defaults c).cooldown ≤ pos_part (key_ttl (with_defaults c).cooldown)
unfolding key_ttl
key_ttl-covers c = let u = with_defaults-IsUsable c in ground (arith, u.cooldown_bounded)
