-- ===== src/Propeller/Server.antt =====
-- approach-2/src/server: the gRPC service and the WebSocket connections.
pub mod Loop
pub mod Messages
pub mod Entry
pub mod Grpc
pub mod Ws
pub mod Fixtures
mod Tests
