-- ===== src/Wm.antt =====
-- Window management: crates/wrsrvd/src/wm.
pub mod Types
pub mod Restack
pub mod Workspace
pub mod Floating
pub mod Protocol
mod Tests
