-- ===== src/Policy.antt =====
-- internal/policy: the backoff, the choice of a rail and the expected value of an attempt.
pub mod Telemetry
pub mod Backoff
pub mod Ceiling
pub mod Gated
pub mod Rails
pub mod Choice
pub mod Ranking
pub mod Value
