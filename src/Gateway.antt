-- ===== src/Gateway.antt =====
-- The API gateway (orderhub-api-gateway/internal).
pub mod Bearer
pub mod Clean
mod Tests
