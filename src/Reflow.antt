-- ===== src/Reflow.antt =====
-- The rows of a screen at another width: src/screen/reflow.rs.
pub mod Packing
pub mod Kept
pub mod Rounds
pub mod Points
pub mod Packed
pub mod Collecting
pub mod Noting
pub mod Flowing
pub mod Window
mod Tests
