-- ===== src/Auth/Service.antt =====
-- The operations of the auth service (service/auth_service.go).
pub mod Types
pub mod Helpers
pub mod Accounts
pub mod Tokens
pub mod Resets
pub mod Verifying
