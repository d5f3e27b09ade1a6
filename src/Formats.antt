-- ===== src/Formats.antt =====
-- internal/formats/base: what the formats share.
pub mod Version
pub mod Store
