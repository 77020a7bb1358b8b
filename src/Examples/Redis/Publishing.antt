-- ===== src/Examples/Redis/Publishing.antt =====
-- What the engines of the redis example run.
use expedit.Prelude.{
  ℕ, String, Option, none, some, List, [], ◌∷◌, ◌++◌, ◌≡◌, refl, ap, ◌∙◌, ◌⊎◌, inr,
}
use expedit.Go.Value.{Value, Error}
use expedit.Go.Context.{Context}
use expedit.Handler.{Run, ok, Handler}
use expedit.Middleware.Chain.{Chain, new_chain, add}
use expedit.Middleware.Chain.Order.{nest, wrap-nest}
use expedit.Middleware.Errors.{Callback}
use expedit.Prometheus.{Vec, Counter, Histogram}
use expedit.Publisher.Destinations.{Config, Destination, constant_fn}
use expedit.Publisher.Engine.{
  PublishingEngine, new_publishing_engine, add_middleware as add_to_publisher, publish, prepare,
}
use expedit.Redis.Json.{marshall_payload_to_json_map}
use expedit.Redis.Publisher.{XAddArgs, new_redis_publisher}
use expedit.Examples.{
  TypeInfo, Registry, observing, add_struct_name_to_metadata, labels_producer,
  create_prom_outgoing_count, create_prom_outgoing_duration,
}
use expedit.Examples.Redis.{publisher_labels, publisher_options, publisher_engine, create_publisher}

-- If the two metrics can be registered, createPublisher of the redis example succeeds. A Publish of its
-- engine runs the Publish method of the publisher that NewRedisPublisher makes of the example's options,
-- inside the metrics, the report of errors, the end of panics and the name of the event, from the
-- outermost to the innermost.
pub create_publisher-publish :
    {W : Type 0} (registry : Registry W) (report : Callback W) (sprint : Value → String)
    (type_of : Value → Option TypeInfo) (marshal_json : Value → Error ⊎ List ℕ)
    (publish_of : Config W XAddArgs → Handler W) (client : Context → XAddArgs → Handler W)
    (stream : Destination) (config : Config W XAddArgs) (count : Vec W (Counter W))
    (duration : Vec W (Histogram W)) (s t u v : Run W)
    → new_redis_publisher
        (some client)
        (some (constant_fn stream))
        (some (marshall_payload_to_json_map marshal_json "json"))
        publisher_options
      ≡ inr config
    → registry.counter_vec "test" "test" "outgoing_test_counter" publisher_labels s ≡ ok count t
    → registry.histogram_vec "test" "test" "outgoing_test_duration" publisher_labels t
      ≡ ok duration u
    → (e : PublishingEngine W) × (create_publisher registry report sprint type_of marshal_json
          publish_of
          (some client)
          stream
          s
        ≡ ok e u)
      × ((publish e v).1
          ≡ nest
              (observing (labels_producer "publisher" "my_publisher") report sprint count duration
                ++ add_struct_name_to_metadata type_of ∷ [])
              (publish_of config)
              v)
unfolding create_publisher create_prom_outgoing_count create_prom_outgoing_duration
    new_publishing_engine add_to_publisher add new_chain publish prepare
create_publisher-publish {W} registry report sprint type_of marshal_json publish_of client stream
      config count duration s t u v made counted timed =
    let around : Chain W = record {
      middlewares =
          observing (labels_producer "publisher" "my_publisher") report sprint count duration
          ++ add_struct_name_to_metadata type_of ∷ [];
    } in
    (
      record { publisher = publish_of config; mc = around; handler_fn = none },
      ap (λ x. publisher_engine registry report sprint type_of publish_of x s) made
          ∙ rw (create_prom_outgoing_count, create_prom_outgoing_duration, counted, timed) refl,
      ap (λ (h : Handler W). h v) (wrap-nest around (publish_of config)),
    )
