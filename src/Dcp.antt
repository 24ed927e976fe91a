-- ===== src/Dcp.antt =====
-- crates/pnio/src/dcp: the discovery and configuration protocol, on the device's side.
pub mod Block
pub mod Frame
pub mod Identify
pub mod Set
pub mod Handle
