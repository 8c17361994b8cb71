-- ===== src/Auth.antt =====
-- src/auth.rs: the modes of authentication, the credentials, and the session configuration.
pub mod Mode
pub mod Credentials
pub mod Session
pub mod FailClosed
pub mod Accepted
pub mod Coverage
