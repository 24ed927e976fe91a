-- ===== src/Alarm/Channel.antt =====
-- crates/pnio/src/alarm/channel.rs: the sender and receiver of one alarm priority. The model's
-- children: the data, the operations, and what is proved of them.
pub mod Types
pub mod Ops
pub mod Cases
pub mod Invariant
pub mod View
pub mod Moves
pub mod Fifo
pub mod Retry
pub mod Wire
pub mod Receive
