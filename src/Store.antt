-- ===== src/Store.antt =====
-- internal/store: the tables of incidents and of the audit ledger, and the statements on them.
pub mod Checks
pub mod Incidents
pub mod Rows
pub mod Mandates
pub mod Attempts
pub mod Sessions
pub mod Ledger
pub mod Chain
pub mod Due
