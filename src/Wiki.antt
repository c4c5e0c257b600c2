-- ===== src/Wiki.antt =====
-- internal/wiki: the local wiki.
pub mod Router
mod Tests
