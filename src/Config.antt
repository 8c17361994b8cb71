-- ===== src/Config.antt =====
-- src/config.rs: the client and server configuration, the active ruleset and its hot reload.
pub mod Client
pub mod Server
pub mod HotReload
pub mod Bootstrap
pub mod Loop
pub mod Fleet
