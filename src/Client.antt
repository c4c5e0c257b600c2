-- ===== src/Client.antt =====
-- internal/client: requests to the upstream API behind a circuit breaker.
pub mod Breaker
pub mod Retry
mod Tests
