-- ===== src/Grpc.antt =====
-- The gRPC service: internal/app/grpc.go.
pub mod Service
pub mod Requests
