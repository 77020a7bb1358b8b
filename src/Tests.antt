-- ===== src/Tests.antt =====
-- Tests, and each theorem at an input that meets its hypotheses.
mod Middlewares
mod Publishers
mod Dispatchers
mod Dispatches
mod Routers
mod Channels
mod Loadtests
mod Redis
mod Amqp
mod Connections
mod Consuming
mod Google
mod Metrics
mod Streams
mod Testrabbit
mod Examples
mod AmqpExamples
mod Emulator
mod GoogleExamples
