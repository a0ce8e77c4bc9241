-- ===== src/Client.antt =====
-- The client application, of operators and of directors.
pub mod CameraSession
pub mod DirectorSession
pub mod Task
pub mod DirectorTransport
pub mod FrameReader
pub mod VideoTrack
pub mod SessionClient
pub mod SessionController
pub mod Director
