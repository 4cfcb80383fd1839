-- ===== src/Inventory/Service.antt =====
-- The service of the inventory (orderhub-inventory-service/internal/service/inventory_service.go).
pub mod Types
pub mod Catalog
pub mod StockLevels
pub mod Reserving
