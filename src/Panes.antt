-- ===== src/Panes.antt =====
-- Pane contents keyed by layout identity: src/pane_set.rs.
pub mod Set
pub mod Moving
pub mod Owning
pub mod Changing
pub mod Transfers
pub mod Searching
pub mod Resizing
mod Tests
