-- ===== src/Engine.antt =====
-- src/engine.rs: the rule engine. `Eval` is the predicate evaluator, `Zones` and `State` what the
-- engine keeps, `Tick` the evaluation of a ruleset, `Subscribe` and `Run` its loop; the other modules
-- prove things about them.
pub mod Eval
pub mod Zones
pub mod State
pub mod Tick
pub mod ZoneLaws
pub mod Absent
pub mod Edges
pub mod Reading
pub mod Baseline
pub mod EdgeRule
pub mod Levels
pub mod Order
pub mod Subscribe
pub mod Run
pub mod RunLaws
pub mod Flow
pub mod Seen
pub mod Drain
pub mod Coverage
pub mod Canonical
