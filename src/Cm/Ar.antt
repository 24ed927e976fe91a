-- ===== src/Cm/Ar.antt =====
-- crates/pnio/src/cm/ar.rs: the state machine of the application relationship.
pub mod Types
pub mod Ops
pub mod Invariant
pub mod Sequence
pub mod Transitions
pub mod Timers
pub mod Answers
