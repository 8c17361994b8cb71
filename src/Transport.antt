-- ===== src/Transport.antt =====
-- src/transport.rs: the session's configurations, and what is put on and read off the wire.
pub mod Settings
pub mod Wire
