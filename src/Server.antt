-- ===== src/Server.antt =====
-- The compositor server: crates/wrsrvd/src, its network thread and its main loop.
pub mod Frames
pub mod Relay
pub mod Network
pub mod Render
pub mod Compositor
pub mod Cluster
pub mod Keyboard
mod Tests
