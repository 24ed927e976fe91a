-- ===== src/Alarm/Rta.antt =====
-- crates/pnio/src/alarm/rta.rs: reading and writing alarm frames.
pub mod Content
pub mod Parse
pub mod Build
pub mod Blocks
pub mod RoundTrip
