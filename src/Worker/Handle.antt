-- ===== src/Worker/Handle.antt =====
-- internal/worker/worker.go: Handle.
mod Reading
mod Pipeline
unfoldable pub use Reading.*
unfoldable pub use Pipeline.*
