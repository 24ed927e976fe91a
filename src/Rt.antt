-- ===== src/Rt.antt =====
-- crates/pnio/src/rt: the cyclic exchange.
pub mod Frame
pub mod Layout
pub mod Engine
pub mod Image
pub mod Runner
