-- ===== src/Interceptor.antt =====
-- The unary interceptors of the three services (internal/transport/grpc/interceptor.go of each).
pub mod Bearer
pub mod Auth
pub mod Clients
pub mod Admits
mod Tests
