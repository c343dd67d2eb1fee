-- ===== src/Worker.antt =====
-- internal/worker/worker.go: the pipeline of an incident, from a message on the queue to its outcome.
pub mod Config
pub mod State
pub mod Execute
pub mod Handle
pub mod Sweep
pub mod Steps
pub mod Actions
pub mod Claims
pub mod Outcomes
pub mod Spared
pub mod Runs
pub mod Presented
pub mod Redelivery
pub mod Endings
pub mod Stranded
pub mod Settled
pub mod Requeued
pub mod Allowance
pub mod Interleaved
