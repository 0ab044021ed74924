-- ===== src/Api.antt =====
-- The gRPC services (internal/api/grpc).
pub mod Status
pub mod Auth
pub mod Wire
pub mod Intents
pub mod Nested
pub mod Service
pub mod Queries
pub mod Transfer
pub mod Ratelimit
pub mod Server
