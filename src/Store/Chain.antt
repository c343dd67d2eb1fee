-- ===== src/Store/Chain.antt =====
-- internal/store/postgres.go: what a ledger that appendAudit alone writes is to internal/audit's Verify.
