-- ===== src/Audit/Rewriting.antt =====
-- internal/audit and internal/domain: what the newest hash of a ledger commits to.
