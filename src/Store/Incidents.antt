-- ===== src/Store/Incidents.antt =====
-- internal/store/postgres.go and internal/store/schedule.go: the incidents table.
mod Table
mod Schedule
unfoldable pub use Table.*
unfoldable pub use Schedule.*
