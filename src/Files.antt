-- ===== src/Files.antt =====
-- internal/service: the service that searches and reads files.
pub mod Preview
pub mod Walk
pub mod Find
pub mod Content
pub mod Ranked
pub mod Index
pub mod Tokenized
pub mod Tokens
pub mod Refresh
mod SearchTests
mod Tests
