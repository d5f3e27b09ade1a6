-- ===== src/Auth.antt =====
-- internal/auth: the throttling of password guesses.
pub mod LoginGuard
