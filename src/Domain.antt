-- ===== src/Domain.antt =====
-- internal/domain: the data contracts of the mesh.
pub mod Fold
pub mod Vocabulary
pub mod Closed
pub mod Taxonomy
pub mod Refold
pub mod Times
pub mod Records
pub mod Proposal
