-- ===== src/Server.antt =====
-- credentials/internal/store/server: the gRPC handlers and the listener.
pub mod Grpc
pub mod Listener
pub mod Replies
pub mod Listening
