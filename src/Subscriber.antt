-- ===== src/Subscriber.antt =====
-- core/subscriber: what receives messages and hands them to handlers.
pub mod Dispatcher
pub mod Router
pub mod Engine
pub mod Contract
pub mod Channel
