-- ===== src/Layout.antt =====
-- Pane layout: src/layout.rs.
pub mod Rect
pub mod Node
pub mod Geometry
pub mod Operations
pub mod Cut
pub mod Minimum
pub mod Tiling
pub mod Leaves
pub mod Room
pub mod Adjusting
pub mod Steering
pub mod Shares
pub mod Valid
pub mod Focus
pub mod Closest
pub mod Searching
pub mod Preserve
pub mod Moves
pub mod Exchange
pub mod Edits
pub mod Checked
pub mod Unpanicked
pub mod Splitting
pub mod Closing
pub mod Tiled
pub mod Hitboxes
pub mod Restoring
pub mod Reachable
pub mod Saved
pub mod Reading
pub mod Writing
pub mod Rereading
pub mod Samples
mod Tests
