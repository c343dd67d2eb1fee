-- ===== src/Outbox/Config.antt =====
-- internal/outbox/relay.go: Config, its defaults, and the delay after a failed iteration.
use resilient_mesh_razorpayb.Base.{
  ℕ, ◌-◌, ◌*◌, ◌^◌, ◌≡◌, ◌⊎◌, ◌||◌, arith, ltb, if◌then◌else◌, ℤ, pos, pos_part, ◌≤ℤ◌, ◌<ℤ◌, ltb_ℤ,
  leb_ℤ,
}
use resilient_mesh_razorpayb.Domain.Times.{Duration, second, wrap_int64}

pub record Config : Type 0 where
  pub batch_size : ℤ
  pub poll_interval : Duration
  pub min_backoff : Duration
  pub max_backoff : Duration
  pub max_publish_attempts : ℤ
  pub drain_timeout : Duration

abbrev millisecond : ℕ
millisecond = 1_000_000

unfoldable pub default_config : Config
default_config = record {
  batch_size = pos 128;
  poll_interval = pos (200 * millisecond);
  min_backoff = pos (250 * millisecond);
  max_backoff = pos (15 * second);
  max_publish_attempts = pos 8;
  drain_timeout = pos (10 * second);
}

abbrev positive_or : ℤ → ℤ → ℤ
positive_or d n = if leb_ℤ n (pos 0) then d else n

unfoldable pub with_defaults : Config → Config
unfolding default_config
with_defaults c = record {
  batch_size = positive_or default_config.batch_size c.batch_size;
  poll_interval = positive_or default_config.poll_interval c.poll_interval;
  min_backoff = positive_or default_config.min_backoff c.min_backoff;
  max_backoff = positive_or default_config.max_backoff c.max_backoff;
  max_publish_attempts = positive_or default_config.max_publish_attempts c.max_publish_attempts;
  drain_timeout = positive_or default_config.drain_timeout c.drain_timeout;
}

-- The doublings of the delay after this many failures in a row.
unfoldable pub shift_of : ℕ → ℕ
shift_of failures = if ltb 20 (failures - 1) then 20 else failures - 1

-- r.cfg.MinBackoff << uint(shift), an int64 above 0.
abbrev shifted : Duration → ℕ → Duration
shifted d shift = wrap_int64 (pos (pos_part d * 2 ^ shift))

unfoldable pub ceiling_of : Config → ℕ → Duration
unfolding shift_of
ceiling_of c failures =
    let ceiling = shifted c.min_backoff (shift_of failures) in
    if ltb_ℤ c.max_backoff ceiling || leb_ℤ ceiling (pos 0) then c.max_backoff else ceiling

-- Relay.backoff, for a random source: Int63n(n), which gives a number from 0 below n.
unfoldable pub backoff : Config → (Duration → Duration) → ℕ → Duration
backoff c int63n failures =
    let d = int63n (ceiling_of c failures) in if ltb_ℤ d c.min_backoff then c.min_backoff else d

-- What a configuration in force promises.
pub record IsUsable (c : Config) : Type 0 where
  pub batch_positive : pos 1 ≤ℤ c.batch_size
  pub poll_positive : pos 1 ≤ℤ c.poll_interval
  pub min_positive : pos 1 ≤ℤ c.min_backoff
  pub max_positive : pos 1 ≤ℤ c.max_backoff
  pub attempts_positive : pos 1 ≤ℤ c.max_publish_attempts
  pub drain_positive : pos 1 ≤ℤ c.drain_timeout

-- Whatever a deployment sets, every number of the configuration in force is positive.
pub with_defaults-IsUsable : (c : Config) → IsUsable (with_defaults c)
unfolding with_defaults
with_defaults-IsUsable c = ground arith

ceiling_of-range :
    (c : Config) (failures : ℕ)
    → IsUsable c
    → (pos 1 ≤ℤ ceiling_of c failures) × (ceiling_of c failures ≤ℤ c.max_backoff)
unfolding ceiling_of
ceiling_of-range c failures u = ground (arith, u.max_positive)

-- For a random source that answers from 0 below its bound, and a usable configuration, the delay after
-- a failed iteration is at least MinBackoff, and it is MinBackoff or below MaxBackoff.
pub backoff-range :
    (c : Config) (int63n : Duration → Duration) (failures : ℕ)
    → IsUsable c
    → ((n : Duration) → pos 1 ≤ℤ n → (pos 0 ≤ℤ int63n n) × (int63n n <ℤ n))
    → (c.min_backoff ≤ℤ backoff c int63n failures)
      × ((backoff c int63n failures <ℤ c.max_backoff) ⊎ (backoff c int63n failures ≡ c.min_backoff))
unfolding backoff
backoff-range c int63n failures u random =
    let (lo, hi) = ceiling_of-range c failures u in
    let (_, below) = random (ceiling_of c failures) lo in ground arith
