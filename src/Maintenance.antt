-- ===== src/Maintenance.antt =====
-- internal/service: the background jobs that delete.
pub mod Cleanup
pub mod Gc
