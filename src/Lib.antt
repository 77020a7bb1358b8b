-- ===== src/Lib.antt =====
-- A model of expedit, a Go library that publishes and receives messages over several brokers.
--
-- A publisher sends a Message to the destination that a routing function names; a subscriber calls a
-- handler for each message that it receives, acks the message if the handler returns nil and nacks
-- it otherwise. Middlewares wrap handlers on both sides. An engine puts the middlewares around the
-- publisher, or around the handlers of a router.
--
-- The parts, with the files of the repository that they model:
--   Go/*                       what the code uses of Go: values of type any, errors, contexts, numbers as texts
--   Message, Message/*         core/message/message.go
--   Handler                    core/message/handler.go, and the state that a handler runs on
--   Middleware/Chain           core/message/middleware/{middleware,chain}.go
--   Middleware/Errors          core/message/middleware/error.go
--   Middleware/Flow, Flow/*    core/message/middleware/{flow,trace}.go
--   Publisher/Destinations     core/publisher/publisher.go (MessagePublisher)
--   Publisher/Engine           core/publisher/engine.go
--   Publisher/Channel          core/publisher/channel.go
--   Subscriber/Dispatcher      core/subscriber/dispatcher.go: one delivery; Dispatcher/Slots: Dispatch
--                              and Wait
--   Subscriber/Router          core/subscriber/router.go
--   Subscriber/Engine          core/subscriber/engine.go
--   Subscriber/Contract        what core/subscriber/subscriber.go asks of a subscriber
--   Subscriber/Channel         core/subscriber/channel.go, with the slots of the dispatcher
--   Loadtest                   core/loadtest/loadtest.go
--   Redis/*                    redis/{values,json,publisher,subscriber}.go
--   Amqp/*                     amqp/{headers,json,publisher,connection,channel,subscriber}.go
--   Google/*                   google/{publisher,subscriber,json}.go
--   Prometheus                 prometheus/middleware/metrics.go
--   Amqp/Testrabbit            amqp/testrabbit/local.go: queues and exchanges for tests
--   Google/Emulator            google/emulator/gcp_emulator.go: topics and subscriptions for tests
--   Examples/*                 examples/types.go, examples/middleware/circuitbreaker.go, and of
--                              examples/{redis/redis,amqp/amqp,google/google}.go what they put together
--   Tests/*                    concrete inputs
--
-- How the code is modelled. A call (`Call W A` in Handler) is a function on an explicit state: the
-- message that the handler's pointer refers to, a clock, the cancellation scopes, and a world of the
-- caller's choice. It returns, returns an error, or panics (`Ret`). A handler is any such function,
-- so theorems hold for handlers, callbacks and broker clients that do anything on their state. A Go
-- map is an association list that holds a key once; its order stands for the order in which a range
-- loop happens to visit it. A nil metadata map is `none`. Concurrency (Publisher/Destinations/
-- Concurrent, Subscriber/Dispatcher/Slots, Subscriber/Channel, Amqp/Connection, Amqp/Channel) is a
-- step relation between system states whose steps are the sections between two synchronisation
-- points; theorems are about all reachable states.
-- Every loop is structural recursion on what it ranges over, and needs no fuel; only the digits of a
-- number (Go/Number) are made on fuel, which is the number itself, since each step divides it by
-- ten. The infinite loop of a channel's Receive and the reconnection loops of amqp are step
-- relations, and the loop of redis is modelled for every number of turns. Durations are natural
-- numbers, except for the options whose sign the code tests, which are ℤ. Machine integers are taken
-- small enough not to overflow: counts below 2^63, durations below 2^61 ns, whose fourfold redis
-- computes; the attributes that Google/Subscriber reads as int64 are tested for their range, and
-- RandomInt computes with the wrap-around of int (Go/Int).
--
-- In Amqp/Testrabbit a call of the channel takes time, and the wait for a queue is a loop on fuel: it has
-- one turn more than its time has poll intervals, which is enough, since a turn takes one interval.
-- Amqp/Testrabbit/Requests notes the requests of a channel, to say which are made.
--
-- Not modelled: the brokers and their clients (redis, RabbitMQ, Google Pub/Sub), the metrics of
-- prometheus, encoding/json, reflect, ParseFloat and rand.IntN, which are parameters where the code calls
-- them; the functions `main` of the examples for redis and amqp, but for their routers, and the example for
-- channels, which only put together what is modelled.
pub mod Prelude
pub mod Go
pub mod Message
pub mod Handler
pub mod Middleware
pub mod Publisher
pub mod Subscriber
pub mod Loadtest
pub mod Redis
pub mod Amqp
pub mod Google
pub mod Prometheus
pub mod Examples
pub mod Tests
