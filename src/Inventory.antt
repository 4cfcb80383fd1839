-- ===== src/Inventory.antt =====
-- The inventory service (orderhub-inventory-service/internal).
pub mod Models
pub mod Errors
pub mod Repo
pub mod Service
pub mod Guards
pub mod Ledger
pub mod Handler
mod Tests
