-- ===== src/Cm/Manager.antt =====
-- crates/pnio/src/cm/mod.rs: the context manager, which puts RPC packets around the AR.
pub mod Types
pub mod Pdu
pub mod Ops
pub mod Calls
pub mod Answered
pub mod Ready
pub mod Dispatch
pub mod Invariant
pub mod Cached
pub mod Once
pub mod Twice
pub mod Wire
pub mod Exchange
