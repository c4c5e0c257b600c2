-- ===== src/Tools.antt =====
-- internal/tools: what the tool handlers share.
pub mod Cache
mod Tests
