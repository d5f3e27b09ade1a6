-- ===== src/Oci.antt =====
-- internal/formats/oci: the OCI Distribution registry.
pub mod Pagination
pub mod Uploads
