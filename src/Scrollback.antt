-- ===== src/Scrollback.antt =====
-- Bounded rows of history: src/scrollback.rs.
pub mod Rows
pub mod Bounds
mod Tests
