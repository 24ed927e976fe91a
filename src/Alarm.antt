-- ===== src/Alarm.antt =====
-- crates/pnio/src/alarm: the alarm channel.
pub mod Fields
pub mod Pdu
pub mod Rta
pub mod Channel
