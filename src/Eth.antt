-- ===== src/Eth.antt =====
-- crates/pnio/src/eth: the Ethernet II header.
pub mod Header
pub mod RoundTrip
