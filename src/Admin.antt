-- ===== src/Admin.antt =====
-- The administration of events, api/admin.go.
pub mod Tables
pub mod Handlers
pub mod Layout
pub mod Asked
pub mod Bounds
pub mod Planned
pub mod Effect
pub mod Consistent
pub mod Update
pub mod Tests
