-- ===== src/Server.antt =====
-- internal/protocol/resp3/server.go: the server's connections.
pub mod Connection
pub mod Reader
pub mod State
pub mod Values
pub mod Steps
pub mod Extended
pub mod Commands
