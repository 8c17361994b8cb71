-- ===== src/Registry.antt =====
-- src/registry.rs: the ruleset registry, which decides who may publish which ruleset.
pub mod Publish
pub mod Ownership
pub mod Record
pub mod Reorder
pub mod Mutation
