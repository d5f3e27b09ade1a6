-- ===== src/Rbac.antt =====
-- internal/service/rbac_service.go: who may do what in which repository.
-- `Selector` evaluates content-selector expressions, `Path` maps OCI paths to image paths,
-- `Service` holds the access decision and the listing filters.
pub mod Selector
pub mod Path
pub mod Service
