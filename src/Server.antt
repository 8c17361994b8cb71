-- ===== src/Server.antt =====
-- src/server.rs and the binaries: the start of the fleet server.
pub mod Start
pub mod Started
pub mod Tasks
pub mod Unseen
pub mod Up
