-- ===== src/Accounts.antt =====
-- Users and API tokens: internal/service/user_service.go and token_service.go over the SQL of
-- internal/repository/postgres (user_repo.go, role_repo.go, user_token_repo.go).
pub mod Rows
pub mod Libraries
pub mod Users
pub mod Directory
pub mod Tokens
