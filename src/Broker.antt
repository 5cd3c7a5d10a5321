-- ===== src/Broker.antt =====
-- The relay of src/broker.cpp: its worker threads, their interleavings, and what they keep.
pub mod State
pub mod Puller
pub mod Server
pub mod Run
pub mod Invariant
pub mod Frame
