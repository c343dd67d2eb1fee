-- ===== src/Gatekeeper.antt =====
-- internal/gatekeeper: the gate between a model's proposal and the one command that is executed.
pub mod Config
pub mod Sanitize
pub mod Clean
pub mod Helpers
pub mod State
pub mod Rules
pub mod MandateRules
pub mod Decide
pub mod Money
pub mod Sticky
pub mod Stops
pub mod Bounds
pub mod Recurring
pub mod Placement
pub mod OwnRail
pub mod Refresh
pub mod Trail
pub mod Degraded
