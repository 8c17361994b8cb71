-- ===== src/Topic.antt =====
-- src/topic.rs: the topic naming convention, its validated strings and their builders.
pub mod Grammar
pub mod Name
pub mod Pattern
pub mod Acl
pub mod Builders
pub mod Validity
pub mod Namespace
pub mod Stable
pub mod Slashes
pub mod Words
pub mod Isolation
pub mod Signals
