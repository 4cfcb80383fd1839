-- ===== src/Auth.antt =====
-- The auth service (orderhub-auth-service/internal).
pub mod Models
pub mod Repo
pub mod Service
pub mod Cleanup
pub mod Book
pub mod Provider
pub mod Rotation
pub mod Kept
pub mod Keys
pub mod Registering
pub mod Resetting
pub mod ResetReturns
pub mod LoggingIn
pub mod Token
pub mod Once
mod Tests
pub mod LoggingOut
pub mod LoggingOutAll
