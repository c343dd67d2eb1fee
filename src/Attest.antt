-- ===== src/Attest.antt =====
-- internal/attest: the Merkle tree over the ledger's entries, and its inclusion proofs.
pub mod Hex
pub mod Tree
pub mod Levels
pub mod Completeness
pub mod Texts
pub mod Nodes
pub mod Soundness
