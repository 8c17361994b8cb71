-- ===== src/Media.antt =====
-- src/codec.rs, src/device.rs and src/media.rs: the choice of codec, device, source and encoder.
pub mod Codec
pub mod Device
pub mod Source
pub mod Capture
pub mod CaptureLaws
pub mod TrackLaws
