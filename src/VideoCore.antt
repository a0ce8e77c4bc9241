-- ===== src/VideoCore.antt =====
-- The video-core library: capture, encoding, decoding, and the pipeline that joins the first two.
pub mod Types
pub mod Ffmpeg
pub mod Encode
pub mod Capture
pub mod Pipeline
pub mod Drain
pub mod Decode
