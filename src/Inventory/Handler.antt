-- ===== src/Inventory/Handler.antt =====
-- The gRPC handlers of the inventory service (internal/transport/grpc/handler.go). `parse` and `print`
-- stand for `uuid.Parse` and `UUID.String`; `valid` is what the generated `ValidateAll` answers for the
-- request. A message `UUID` is none where the pointer is nil.
pub mod Messages
pub mod Calls
pub mod Codes
