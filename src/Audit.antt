-- ===== src/Audit.antt =====
-- internal/audit, and the ledger entries of internal/domain: the hash-chained record of decisions.
pub mod Entry
pub mod Encoding
pub mod Verify
pub mod Verdict
pub mod Rewriting
