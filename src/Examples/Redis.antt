-- ===== src/Examples/Redis.antt =====
-- examples/redis/redis.go: createPublisher, createSubscriber and the router of `main`.
pub mod Publishing
pub mod Arrival
use expedit.Prelude.{ℕ, String, Option, none, some, List, [], ◌∷◌, ◌++◌, ◌⊎◌, inl, inr, true}
use expedit.Go.Value.{Value, Error}
use expedit.Go.Context.{Context}
use expedit.Handler.{
  then_call, Run, Ret, ok, failed, panicked, Call, Handler, GoType, handle_with_payload,
}
use expedit.Middleware.Errors.{Callback}
use expedit.Prometheus.{PrometheusLabelsProducer}
use expedit.Publisher.Destinations.{Config, Destination, constant_fn}
use expedit.Publisher.Engine.{
  PublishingEngine, new_publishing_engine, add_middleware as add_to_publisher,
}
use expedit.Subscriber.Engine.{
  SubscriptionEngine, new_subscription_engine, add_middleware as add_to_subscriber,
}
use expedit.Subscriber.Router.{
  SubscriptionRouter, new_router, route_from_metadata_key, add_handler, add_middleware, handle,
  add_default_handler,
}
use expedit.Redis.Values.{
  metadata_with_prefix, prefix_metadata_extractor, non_prefix_payload_extractor,
}
use expedit.Redis.Json.{marshall_payload_to_json_map, unmarshall_map_payload_from_json}
use expedit.Redis.Publisher.{
  PublisherOption, XAddArgs, with_metadata_marshaller, new_redis_publisher,
}
use expedit.Redis.Subscriber.{
  RedisSubscriber, SubscriberOption, start_from_beginning, with_start_id, with_metadata_extractor,
  with_payload_extractor, new_redis_subscriber,
}
use expedit.Examples.{
  TypeInfo, Registry, add_each, or_late, observing, add_struct_name_to_metadata, labels_producer,
  create_prom_outgoing_count, create_prom_outgoing_duration, create_prom_incoming_count,
  create_prom_incoming_duration,
}

abbrev pub publisher_labels : List String
publisher_labels = "publisher" ∷ "error" ∷ []

abbrev pub subscriber_labels : List String
subscriber_labels = "subscriber" ∷ "error" ∷ []

abbrev pub publisher_options : {W : Type 0} → List (PublisherOption W)
publisher_options = with_metadata_marshaller (metadata_with_prefix "metadata_") ∷ []

-- The prefixes match those of the publisher.
abbrev pub subscriber_options : {W : Type 0} → List (SubscriberOption W)
subscriber_options =
    with_start_id start_from_beginning
    ∷ with_metadata_extractor (some (prefix_metadata_extractor "metadata_"))
    ∷ with_payload_extractor (some (non_prefix_payload_extractor "metadata_"))
    ∷ []

module _ {W : Type 0} (registry : Registry W) (report : Callback W) (sprint : Value → String) where
  -- `publish_of` gives the Publish method of a publisher; its map of destinations is in Publisher.
  abbrev pub publisher_engine :
      (Value → Option TypeInfo)
      → (Config W XAddArgs → Handler W)
      → Error ⊎ Config W XAddArgs
      → Call W (PublishingEngine W)
  publisher_engine type_of publish_of (inl e) s = failed e s
  publisher_engine type_of publish_of (inr config) s =
      then_call (create_prom_outgoing_count registry publisher_labels s) (λ count t.
        then_call (create_prom_outgoing_duration registry publisher_labels t) (λ duration.
          or_late "cannot add middleware after publishing has started" (
            add_each add_to_publisher
              (observing (labels_producer "publisher" "my_publisher") report sprint count duration
                ++ add_struct_name_to_metadata type_of ∷ [])
              (new_publishing_engine (publish_of config)))))

  unfoldable pub create_publisher :
      (Value → Option TypeInfo)
      → (Value → Error ⊎ List ℕ)
      → (Config W XAddArgs → Handler W)
      → Option (Context → XAddArgs → Handler W)
      → Destination
      → Call W (PublishingEngine W)
  create_publisher type_of marshal_json publish_of client stream s =
      publisher_engine type_of publish_of
        (new_redis_publisher client (some (constant_fn stream))
          (some (marshall_payload_to_json_map marshal_json "json")) publisher_options)
        s

  abbrev pub subscriber_engine :
      (RedisSubscriber W → Context → Handler W → Handler W)
      → SubscriptionRouter W
      → Error ⊎ RedisSubscriber W
      → Call W (SubscriptionEngine W)
  subscriber_engine receive_of router (inl e) s = failed e s
  subscriber_engine receive_of router (inr sub) s =
      then_call (create_prom_incoming_count registry subscriber_labels s) (λ count t.
        then_call (create_prom_incoming_duration registry subscriber_labels t) (λ duration.
          or_late "cannot add middleware after subscription has started" (
            add_each add_to_subscriber
              (observing (labels_producer "subscriber" "my_subscriber") report sprint count
                duration)
              (new_subscription_engine (receive_of sub) router))))

  -- `receive_of` gives the Receive method of a subscriber.
  unfoldable pub create_subscriber :
      (RedisSubscriber W → Context → Handler W → Handler W)
      → String
      → SubscriptionRouter W
      → Call W (SubscriptionEngine W)
  create_subscriber receive_of stream router s =
      subscriber_engine receive_of router (new_redis_subscriber true stream subscriber_options) s

-- The router of `main`. `on_event` and `default_handler` stand for its two handlers.
unfoldable pub demo_router :
    {W T : Type 0}
    → (Value → String)
    → (String → List ℕ)
    → (Value → String)
    → (List ℕ → Error ⊎ Value)
    → GoType T
    → (T → Handler W)
    → Handler W
    → Option (SubscriptionRouter W)
demo_router sprint utf8 type_name unmarshal event on_event default_handler =
    let (r, b) =
      add_handler "DummyEvent1" (new_router (route_from_metadata_key sprint "event_type") []) in
    add_default_handler default_handler (
      handle b (handle_with_payload event on_event)
        (add_middleware b (unmarshall_map_payload_from_json utf8 type_name unmarshal "json") r))
