-- ===== src/Client.antt =====
-- The client: crates/wrclient/src.
pub mod Frames
pub mod Input
pub mod Redirects
mod Tests
