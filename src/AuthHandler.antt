-- ===== src/AuthHandler.antt =====
-- The gRPC handlers of the auth service (orderhub-auth-service/internal/transport/grpc/handler.go).
pub mod Caller
pub mod Calls
pub mod Unknown
pub mod Missing
mod Tests
