-- ===== src/Amqp.antt =====
-- The amqp module: connections and channels that reconnect, publishing to an exchange of RabbitMQ and
-- consuming from a queue, headers and JSON payloads.
pub mod Connection
pub mod Channel
pub mod Headers
pub mod Json
pub mod Publisher
pub mod Subscriber
pub mod Testrabbit
