-- ===== src/Auth.antt =====
-- internal/auth: Bearer authentication of the HTTP transports.
pub mod Cache
pub mod Address
pub mod Limiter
pub mod Rpc
pub mod Serve
pub mod Remote
pub mod Gate
pub mod Start
mod Samples
mod GateTests
mod Tests
