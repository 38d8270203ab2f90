-- ===== src/Prompt.antt =====
-- The line editor of the window bar: src/prompt.rs.
pub mod Text
pub mod Editor
pub mod Bounds
pub mod Typing
mod Tests
