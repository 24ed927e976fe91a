-- ===== src/Examples.antt =====
-- Runs of the model on concrete data: a small device, its controller, and the frames between them.
pub mod Values
pub mod Relationship
pub mod Codecs
pub mod Channel
pub mod Cyclic
pub mod Image
pub mod Runner
pub mod Manager
pub mod Stations
