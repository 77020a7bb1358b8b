-- ===== src/Redis.antt =====
-- The redis module: publishing to a stream and receiving from it, alone or in a consumer group.
pub mod Values
pub mod Json
pub mod Entries
pub mod Publisher
pub mod RoundTrip
pub mod Subscriber
