-- ===== src/Publisher.antt =====
-- core/publisher: the publisher of messages to destinations, and the engine in front of it.
pub mod Destinations
pub mod Engine
pub mod Channel
