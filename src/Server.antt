-- ===== src/Server.antt =====
-- cmd/server/main.go: the HTTP server's own state.
pub mod Sessions
pub mod Streamable
pub mod Sse
mod SseTests
mod Tests
