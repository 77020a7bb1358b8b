-- ===== src/Google.antt =====
-- The google module: publishing to a topic of Google Pub/Sub.
pub mod Publisher
pub mod Json
pub mod Subscriber
pub mod Emulator
