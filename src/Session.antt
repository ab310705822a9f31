-- ===== src/Session.antt =====
-- Sessions of the compositor server: crates/wrsrvd/src/session.
pub mod Lifecycle
pub mod Store
pub mod Registry
mod Tests
