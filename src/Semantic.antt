-- ===== src/Semantic.antt =====
-- src/semantic.rs: the semantic rule documents and their compilation to the engine's rules.
pub mod Model
pub mod Action
pub mod When
pub mod Lower
pub mod Compile
pub mod Meaning
pub mod LowerSound
pub mod BuildSound
pub mod CompileSound
pub mod TickSound
pub mod Format
