-- ===== src/Witnesses.antt =====
-- The theorems at concrete inputs.
mod Text
mod Payments
mod Gate
mod Modelcheck
mod Outbox
mod Policy
mod Ledger
mod Breaker
mod Incidents
mod Worker
