-- ===== src/Signaling.antt =====
-- src/signaling.rs and src/mesh.rs: the messages between peers, and the sessions that answer them.
pub mod Messages
pub mod Delivery
pub mod Reception
pub mod Mesh
pub mod MeshLaws
pub mod Video
pub mod Ssrc
pub mod Camera
