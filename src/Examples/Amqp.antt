-- ===== src/Examples/Amqp.antt =====
-- examples/amqp/amqp.go: createPublisher, createSubscriber, setupInfrastructure and the router of
-- `main`.
pub mod Arrival
use expedit.Prelude.{
  ℕ, String, Bool, Option, none, some, List, [], ◌∷◌, ◌++◌, ◌⊎◌, inl, inr, true, false, lookup,
}
use expedit.Go.Value.{Value, Error}
use expedit.Go.Context.{Context}
use expedit.Message.{entries}
use expedit.Handler.{then_call, Ret, ok, failed, Call, Handler, GoType, handle_with_payload}
use expedit.Middleware.Errors.{Callback}
use expedit.Publisher.Destinations.{Config, Destination, constant_fn}
use expedit.Publisher.Engine.{
  PublishingEngine, new_publishing_engine, add_middleware as add_to_publisher,
}
use expedit.Subscriber.Engine.{
  SubscriptionEngine, new_subscription_engine, add_middleware as add_to_subscriber,
}
use expedit.Subscriber.Router.{
  SubscriptionRouter, new_router, route_from_metadata_key, add_handler, add_middleware, handle,
  add_default_handler,
}
use expedit.Amqp.Json.{marshall_payload_to_json, unmarshall_payload_from_json}
use expedit.Amqp.Publisher.{
  Channel, RoutingKeyFunc, AmqpMessage, DefaultMessageOptions, persistent, new_amqp_publisher,
}
use expedit.Amqp.Subscriber.{AmqpSubscriber, with_auto_ack, new_amqp_subscriber}
use expedit.Amqp.Testrabbit as Broker
use expedit.Amqp.Testrabbit.{
  Action, Op, Env, Outcome, left, done, failing, panicking, call, pure, ◌>>=◌, ◌>>◌,
}
use expedit.Examples.{
  TypeInfo, Registry, add_each, or_late, observing, add_struct_name_to_metadata, labels_producer,
  create_prom_outgoing_count, create_prom_outgoing_duration, create_prom_incoming_count,
  create_prom_incoming_duration,
}
use expedit.Examples.Redis.{publisher_labels, subscriber_labels}

abbrev pub key_of : (Value → String) → Option Value → String
key_of sprint none = "default"
key_of sprint (some event_type) = sprint event_type

-- The function `routingKeyFn`.
unfoldable pub routing_key_fn : {W : Type 0} → (Value → String) → RoutingKeyFunc W
routing_key_fn sprint s = ok (key_of sprint (lookup "event_type" (entries s.message.metadata))) s

abbrev pub message_options : DefaultMessageOptions
message_options = record {
  content_type = "application/json";
  priority = 0;
  delivery_mode = persistent;
}

module _ {W : Type 0} (registry : Registry W) (report : Callback W) (sprint : Value → String) where
  -- `publish_of` gives the Publish method of a publisher; its map of destinations is in Publisher.
  abbrev pub publisher_engine :
      (Value → Option TypeInfo)
      → (Value → Error ⊎ List ℕ)
      → (Config W AmqpMessage → Handler W)
      → Error ⊎ Config W AmqpMessage
      → Call W (PublishingEngine W)
  publisher_engine type_of marshal_json publish_of (inl e) s = failed e s
  publisher_engine type_of marshal_json publish_of (inr config) s =
      then_call (create_prom_outgoing_count registry publisher_labels s) (λ count t.
        then_call (create_prom_outgoing_duration registry publisher_labels t) (λ duration.
          or_late "cannot add middleware after publishing has started" (
            add_each add_to_publisher
              (observing (labels_producer "publisher" "my_publisher") report sprint count duration
                ++ add_struct_name_to_metadata type_of ∷ marshall_payload_to_json marshal_json ∷ [])
              (new_publishing_engine (publish_of config)))))

  unfoldable pub create_publisher :
      (Value → Option TypeInfo)
      → (Value → Error ⊎ List ℕ)
      → (Config W AmqpMessage → Handler W)
      → Channel W
      → Destination
      → Call W (PublishingEngine W)
  create_publisher type_of marshal_json publish_of channel exchange s =
      publisher_engine type_of marshal_json publish_of
        (new_amqp_publisher channel (some (constant_fn exchange)) (some (routing_key_fn sprint))
          message_options [])
        s

  abbrev pub subscriber_engine :
      (AmqpSubscriber W → Context → Handler W → Handler W)
      → SubscriptionRouter W
      → Error ⊎ AmqpSubscriber W
      → Call W (SubscriptionEngine W)
  subscriber_engine receive_of router (inl e) s = failed e s
  subscriber_engine receive_of router (inr sub) s =
      then_call (create_prom_incoming_count registry subscriber_labels s) (λ count t.
        then_call (create_prom_incoming_duration registry subscriber_labels t) (λ duration.
          or_late "cannot add middleware after subscription has started" (
            add_each add_to_subscriber
              (observing (labels_producer "subscriber" "my_subscriber") report sprint count
                duration)
              (new_subscription_engine (receive_of sub) router))))

  -- `receive_of` gives the Receive method of a subscriber.
  unfoldable pub create_subscriber :
      (AmqpSubscriber W → Context → Handler W → Handler W)
      → String
      → SubscriptionRouter W
      → Call W (SubscriptionEngine W)
  create_subscriber receive_of queue router s =
      subscriber_engine receive_of router (new_amqp_subscriber true queue (with_auto_ack ∷ [])) s

-- `defer ch.Close()`: it runs however the function ends, and its error is dropped.
abbrev pub then_close : {W A : Type 0} → Action W (Unit {0}) → Outcome W A → Outcome W A
then_close close (done a e) = done a (left (close e))
then_close close (failing err e) = failing err (left (close e))
then_close close (panicking err e) = panicking err (left (close e))

abbrev pub closing : {W A : Type 0} → Action W (Unit {0}) → Action W A → Action W A
closing close m e = then_close close (m e)

-- `open_channel` is the method Channel of the connection; with the channel comes its Close.
unfoldable pub setup_infrastructure :
    {W D : Type 0}
    → Op W (Broker.Channel W D × Op W (Unit {0}))
    → String
    → String
    → Action W (Unit {0})
setup_infrastructure open_channel exchange_name queue_name = do
  opened ← call open_channel
  closing (call opened.1) (do
    call (opened.0.exchange_declare exchange_name "fanout" true false false false)
    call (opened.0.queue_declare queue_name true false false false)
    call (opened.0.queue_bind queue_name "" exchange_name false none))

-- The router of `main`; the functions stand for its three handlers.
unfoldable pub demo_router :
    {W T U : Type 0}
    → (Value → String)
    → (List ℕ → Error ⊎ Value)
    → (List ℕ → Error ⊎ Value)
    → GoType T
    → GoType U
    → (T → Handler W)
    → (U → Handler W)
    → Handler W
    → Option (SubscriptionRouter W)
demo_router sprint unmarshal_1 unmarshal_2 event_1 event_2 on_event_1 on_event_2 default_handler =
    let (r, b) =
      add_handler "DummyEvent1" (new_router (route_from_metadata_key sprint "event_type") []) in
    let (q, c) = add_handler "DummyEvent2" (
      handle b (handle_with_payload event_1 on_event_1)
        (add_middleware b (unmarshall_payload_from_json unmarshal_1) r)) in
    add_default_handler default_handler (
      handle c (handle_with_payload event_2 on_event_2)
        (add_middleware c (unmarshall_payload_from_json unmarshal_2) q))
