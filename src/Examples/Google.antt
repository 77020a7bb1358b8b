-- ===== src/Examples/Google.antt =====
-- examples/google/google.go.
pub mod Arrival
use expedit.Prelude.{
  ℕ, ◌+◌, ◌*◌, String, false, Option, none, some, List, [], ◌∷◌, ◌++◌, ◌⊎◌, inl, inr,
}
use expedit.Go.Value.{Value, Error, str}
use expedit.Go.Context.{Context, background}
use expedit.Message.{new_message}
use expedit.Handler.{
  Run, Ret, ok, failed, panicked, Call, Handler, GoType, handle_with_payload, then_call, must,
  deferred,
}
use expedit.Middleware.Errors.{Callback}
use expedit.Publisher.Destinations.{Config, Destination, constant_fn}
use expedit.Publisher.Engine.{
  PublishingEngine, new_publishing_engine, publish, add_middleware as add_to_publisher,
}
use expedit.Subscriber.Engine.{
  SubscriptionEngine, new_subscription_engine, start, add_middleware as add_to_subscriber,
}
use expedit.Subscriber.Router.{
  SubscriptionRouter, new_router, route_from_metadata_key, add_handler, add_middleware, handle,
  add_default_handler,
}
use expedit.Google.Json.{marshall_payload_to_json, unmarshall_payload_from_json}
use expedit.Google.Publisher as Sending
use expedit.Google.Publisher.{PubsubMessage, new_google_publisher}
use expedit.Google.Subscriber as Consuming
use expedit.Google.Subscriber.{GoogleSubscriber, new_google_subscriber}
use expedit.Google.Emulator as Emulator
use expedit.Google.Emulator.{new_test_client, create_test_topic, create_test_subscription}
use expedit.Examples.{
  TypeInfo, Registry, add_each, or_late, observing, add_struct_name_to_metadata, labels_producer,
  circuit_breaker, create_prom_outgoing_count, create_prom_outgoing_duration,
  create_prom_incoming_count, create_prom_incoming_duration,
}
use expedit.Examples.Redis.{publisher_labels, subscriber_labels}

-- What the example calls: the client of Pub/Sub, for both sides, and what prints and converts. The
-- Publish method of a publisher is given by `publish_of`, whose map of destinations is in Publisher,
-- and the Receive method of a subscriber by `receive_of`. `execute` is Execute of a new circuit breaker.
pub record Services (W Settings : Type 0) : Type 0 where
  pub registry : Registry W
  pub report_publisher : Callback W
  pub report_handler : Callback W
  pub sprint : Value → String
  pub type_of : Value → Option TypeInfo
  pub marshal_json : Value → Error ⊎ List ℕ
  pub unmarshal : List ℕ → Error ⊎ Value
  pub draw : Call W ℕ
  pub execute : Handler W → Handler W
  pub unset : Settings
  pub publish_of : Config W PubsubMessage → Handler W
  pub receive_of : GoogleSubscriber Settings W → Context → Handler W → Handler W
  pub new_emulator_client : Context → String → Call W (Emulator.Client W)
  pub new_client : Context → String → Call W (Sending.Client W × Consuming.Client Settings W)

module _ {W Settings : Type 0} (with_services : Services W Settings) where
  abbrev pub publisher_engine : Error ⊎ Config W PubsubMessage → Call W (PublishingEngine W)
  publisher_engine (inl e) s = failed e s
  publisher_engine (inr config) s =
      let v = with_services in
      then_call (create_prom_outgoing_count v.registry publisher_labels s) (λ count t.
        then_call (create_prom_outgoing_duration v.registry publisher_labels t) (λ duration.
          or_late "cannot add middleware after publishing has started" (
            add_each add_to_publisher
              (observing (labels_producer "publisher" "my_publisher") v.report_publisher v.sprint
                  count duration
                ++ add_struct_name_to_metadata v.type_of
                  ∷ marshall_payload_to_json v.marshal_json
                  ∷ [])
              (new_publishing_engine (v.publish_of config)))))

  unfoldable pub create_publisher :
      Option (Sending.Client W) → Destination → Call W (PublishingEngine W)
  create_publisher client topic s =
      publisher_engine
        (new_google_publisher with_services.sprint client (some (constant_fn topic)) []) s

  abbrev pub subscriber_engine :
      SubscriptionRouter W → Error ⊎ GoogleSubscriber Settings W → Call W (SubscriptionEngine W)
  subscriber_engine router (inl e) s = failed e s
  subscriber_engine router (inr sub) s =
      let v = with_services in
      then_call (create_prom_incoming_count v.registry subscriber_labels s) (λ count t.
        then_call (create_prom_incoming_duration v.registry subscriber_labels t) (λ duration.
          or_late "cannot add middleware after subscription has started" (
            add_each add_to_subscriber
              (circuit_breaker v.execute
                ∷ observing (labels_producer "subscriber" "my_subscriber") v.report_handler v.sprint
                    count duration)
              (new_subscription_engine (v.receive_of sub) router))))

  unfoldable pub create_subscriber :
      Option (Consuming.Client Settings W)
      → String
      → SubscriptionRouter W
      → Call W (SubscriptionEngine W)
  create_subscriber client subscription router s =
      subscriber_engine router (new_google_subscriber with_services.unset client subscription []) s

-- Both handlers of `main`: they sleep for 2 to 6 seconds, and print. `draw` is rand.Intn(5).
unfoldable pub sleeping : {W : Type 0} → Call W ℕ → Handler W
sleeping draw s =
    then_call (draw s) (λ n t. ok tt (record t { now = t.now + (n + 2) * 1000000000 }))

-- The router of `main`. `on_event` and `default_handler` stand for its two handlers.
unfoldable pub demo_router :
    {W T : Type 0}
    → (Value → String)
    → (List ℕ → Error ⊎ Value)
    → GoType T
    → (T → Handler W)
    → Handler W
    → Option (SubscriptionRouter W)
demo_router sprint unmarshal event on_event default_handler =
    let (r, b) =
      add_handler "DummyEvent1" (new_router (route_from_metadata_key sprint "event_type") []) in
    add_default_handler default_handler (
      handle b (handle_with_payload event on_event)
        (add_middleware b (unmarshall_payload_from_json unmarshal) r))

abbrev pub started : {W E : Type 0} → Option (E × Ret W (Unit {0})) → Handler W
started none s = panicked (str "cannot start subscription engine twice") s
started (some (e, r)) s = r

module _ {W Settings : Type 0} (with_services : Services W Settings) where
  -- `main`, from the router on. `run_ctx` and `stop` are what signal.NotifyContext gives.
  abbrev pub consume :
      Context
      → (Run W → Run W)
      → Consuming.Client Settings W
      → String
      → SubscriptionRouter W
      → Handler W
  consume run_ctx stop client subscription router s =
      then_call (must (create_subscriber with_services (some client) subscription router s))
        (λ engine t. deferred stop (must (started (start run_ctx engine t) t)))

  -- NewMessage and Publish of the engine.
  abbrev pub produce : Value → PublishingEngine W → Handler W
  produce payload engine s =
      must (publish engine (record s { message = new_message background payload })).1

  -- The function `main`. `random_part` is what shortuuid makes for the topic.
  unfoldable pub main :
      {T : Type 0} → String → Value → GoType T → Context → (Run W → Run W) → Handler W
  main random_part payload event run_ctx stop s =
      let v = with_services in
      then_call (new_test_client v.new_emulator_client background "test-project" s) (λ emulator t.
        then_call (create_test_topic emulator random_part background "test-topic" t) (λ topic t.
          then_call (create_test_subscription topic background "test-subscription" false t)
            (λ subscription t.
              then_call (must (v.new_client background "test-project" t)) (λ client t.
                then_call (must (create_publisher v (some client.0) topic.name t)) (λ engine t.
                  then_call (produce payload engine t) (λ _ t.
                    then_call
                      (or_late "default handler already set"
                        (demo_router v.sprint v.unmarshal event (λ _. sleeping v.draw)
                          (sleeping v.draw))
                        t)
                      (consume run_ctx stop client.1 subscription.name)))))))
