-- ===== src/Cm.antt =====
-- crates/pnio/src/cm: the context manager.
pub mod Status
pub mod Block
pub mod Cursor
pub mod Abort
pub mod Model
pub mod Requests
pub mod Control
pub mod Connect
pub mod Write
pub mod Records
pub mod Ar
pub mod Manager
