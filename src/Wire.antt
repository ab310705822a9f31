-- ===== src/Wire.antt =====
-- The wire protocol: crates/wayray-protocol/src.
pub mod Codec
pub mod Messages
pub mod Pins
pub mod Encoding
mod Tests
