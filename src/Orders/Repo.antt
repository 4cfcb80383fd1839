-- ===== src/Orders/Repo.antt =====
-- The repositories of the order service (orderhub-order-service/internal/repository).
pub mod Orders
pub mod Items
