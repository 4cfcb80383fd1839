-- ===== src/Auth/Repo.antt =====
-- The repositories of the auth service (internal/repository).
pub mod Users
pub mod Refresh
pub mod Sessions
pub mod Codes
pub mod Jwks
