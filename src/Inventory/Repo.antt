-- ===== src/Inventory/Repo.antt =====
-- The repositories of the inventory service (orderhub-inventory-service/internal/repository).
pub mod Stock
pub mod Reservations
pub mod Products
