-- ===== src/Storage.antt =====
-- internal/storage: the registry of physical stores.
pub mod Registry
