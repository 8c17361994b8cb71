-- ===== src/Runtime.antt =====
-- src/runtime.rs: the start of a client.
pub mod Inputs
pub mod FailSafe
pub mod Retry
pub mod LostAck
pub mod Bootstrap
pub mod Started
pub mod Supervise
pub mod Subsystems
pub mod Ready
