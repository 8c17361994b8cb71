-- ===== src/Registration.antt =====
-- src/registration/: the lease registry, and the messages between clients and server.
pub mod Lease
pub mod LeaseLaws
pub mod History
pub mod Entries
pub mod Protocol
pub mod Server
pub mod Client
pub mod Exchange
pub mod Node
