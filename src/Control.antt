-- ===== src/Control.antt =====
-- The control server of src/control_server.cpp: JSON requests that change the links' control blocks.
pub mod Json
pub mod Reader
pub mod Params
pub mod State
pub mod Checks
pub mod Handlers
pub mod Invariant
pub mod Server
mod Examples
