-- ===== src/Health.antt =====
-- src/health.rs: readiness, the endpoints, the probe and the supervisor.
pub mod Gate
pub mod Probe
pub mod ProbeLaws
pub mod Supervisor
pub mod Tasks
