-- ===== src/Clipboard.antt =====
-- Observation of the clipboard writes of a child: src/clipboard.rs.
pub mod Observer
pub mod Bounds
mod Tests
