-- ===== src/Breaker.antt =====
-- internal/breaker/breaker.go: the per-issuer circuit breaker.
pub mod Config
pub mod Scripts
pub mod Runs
pub mod Probes
pub mod Outage
