-- ===== src/LearnGrpc.antt =====
-- The asynchronous server and client of learn_grpc, over the completion queues of gRPC.
pub mod Event
pub mod Registry
pub mod Handlers
pub mod Client
pub mod Services
pub mod Config
mod Tests
