-- ===== src/Rpc.antt =====
-- crates/pnio/src/rpc: the byte order of DCE-RPC data and the UUIDs in it.
pub mod Drep
pub mod Uuid
pub mod Errors
pub mod Header
pub mod Ndr
