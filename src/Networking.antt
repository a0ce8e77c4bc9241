-- ===== src/Networking.antt =====
-- The networking library: result codes and the WHIP publisher.
pub mod Types
pub mod Publisher
