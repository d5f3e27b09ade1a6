-- ===== src/Api.antt =====
-- internal/api/handlers: who a request comes from and what it may do.
pub mod Identity
pub mod Middleware
pub mod Access
