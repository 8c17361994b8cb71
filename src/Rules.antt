-- ===== src/Rules.antt =====
-- src/rules.rs: the rule language that the engine runs, and the JSON values that it reads.
pub mod Floats
pub mod Json
pub mod Model
