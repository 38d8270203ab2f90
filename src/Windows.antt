-- ===== src/Windows.antt =====
-- Ordered windows, their focus and the floating window: src/window.rs.
pub mod Store
pub mod Order
pub mod Valid
pub mod Lists
pub mod Keeping
pub mod Inserting
pub mod Selecting
pub mod Places
pub mod Moving
pub mod Closing
pub mod History
pub mod Reachable
pub mod Joining
mod Tests
