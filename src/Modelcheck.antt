-- ===== src/Modelcheck.antt =====
-- internal/modelcheck: the explorer that drives the gate over an abstract state space.
pub mod Space
pub mod Keys
pub mod Search
pub mod Reach
pub mod Fixpoint
pub mod Input
pub mod Successors
pub mod Checks
pub mod Explorer
pub mod Passing
pub mod Keeps
pub mod Reached
pub mod Seeds
pub mod Verdict
pub mod Report
pub mod Counted
