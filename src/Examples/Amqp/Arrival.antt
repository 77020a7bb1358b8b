-- ===== src/Examples/Amqp/Arrival.antt =====
-- An event of the amqp example, from its publisher to its handler.
use expedit.Prelude.{
  ℕ, String, Bool, Bool-cases, true, false, Option, some, some_inj, List, [], ◌≡◌, refl, sym, ap,
  ◌∙◌, ◌⊎◌, inl, inr, Map, lookup, insert, lookup-insert_self, ◌==◌, if◌then◌else◌,
}
use expedit.Go.Value.{Value, str, bytes, Error}
use expedit.Go.Context.{Context}
use expedit.Message.{Message, entries, new_message}
use expedit.Handler.{Run, Ret, ok, failed, panicked, Handler, GoType, handle_with_payload}
use expedit.Middleware.Chain.{new_chain, add, wrap}
use expedit.Publisher.Destinations.{Config, Destination, constant_fn}
use expedit.Subscriber.Router.{
  SubscriptionRouter, or_nil, handler_func, new_router, route_from_metadata_key, add_handler,
  add_middleware, handle, add_default_handler, route, unroutable,
}
use expedit.Amqp.Headers.{metadata_as_headers}
use expedit.Amqp.Json.{
  marshall_payload_to_json, unmarshall_payload_from_json, with_payload, decoded, encoded,
}
use expedit.Amqp.Publisher.{
  Channel, AmqpMessage, marshal, new_amqp_publisher, apply_options, check_defaults,
}
use expedit.Amqp.Subscriber.{AmqpDelivery, metadata_of, to_message}
use expedit.Examples.{TypeInfo, get_type_name, add_struct_name_to_metadata}
use expedit.Examples.Naming.{stamped, add_struct_name_to_metadata-stamped}
use expedit.Examples.Amqp.{key_of, routing_key_fn, message_options, demo_router}

-- What the publisher is given: the message with the name of its event, and the bytes of its payload.
abbrev pub written : {W : Type 0} → String → Map Value → List ℕ → Run W → Run W
written name m b s =
    let t = stamped name m s in record t { message = record (t.message) { payload = bytes b } }

module _ {W T U : Type 0} (sprint : Value → String)
    (unmarshal_1 unmarshal_2 : List ℕ → Error ⊎ Value) (event_1 : GoType T) (event_2 : GoType U)
    (on_event_1 : T → Handler W) (on_event_2 : U → Handler W) (default_handler : Handler W) where
  -- The handlers of an event, by whether its name is that of the first, or that of the second.
  abbrev pub handled_by : Bool → Bool → Handler W
  handled_by true second =
      unmarshall_payload_from_json unmarshal_1 (handle_with_payload event_1 on_event_1)
  handled_by false true =
      unmarshall_payload_from_json unmarshal_2 (handle_with_payload event_2 on_event_2)
  handled_by false false = default_handler

  demo_router-routes :
      (router : SubscriptionRouter W) (name : String) (t : Run W)
      → demo_router sprint unmarshal_1 unmarshal_2 event_1 event_2 on_event_1 on_event_2
          default_handler
        ≡ some router
      → sprint (or_nil (lookup "event_type" (entries t.message.metadata))) ≡ name
      → handler_func router t ≡ handled_by ("DummyEvent1" == name) ("DummyEvent2" == name) t
  unfolding demo_router handler_func new_router route_from_metadata_key add_handler add_middleware
      handle add_default_handler new_chain add route unroutable wrap lookup insert
  demo_router-routes router name t h e =
      ap (λ r. handler_func r t) (sym (some_inj h))
      ∙ rw (handler_func, e)
          (elim (Bool-cases ("DummyEvent1" == name)) [
            | inl y ↦ rw y refl
            | inr n ↦ elim (Bool-cases ("DummyEvent2" == name)) [
              | inl y ↦ rw (n, y) refl
              | inr k ↦ rw (n, k) refl
            ]
          ])

module _ {W : Type 0} where
  -- The rest of the publisher's chain.
  chain-written :
      (type_of : Value → Option TypeInfo) (marshal_json : Value → Error ⊎ List ℕ) (next : Handler W)
      (s : Run W) (name : String) (m : Map Value) (b : List ℕ)
      → get_type_name (type_of s.message.payload) ≡ some name
      → s.message.metadata ≡ some m
      → marshal_json s.message.payload ≡ inr b
      → add_struct_name_to_metadata type_of (marshall_payload_to_json marshal_json next) s
        ≡ next (written name m b s)
  unfolding marshall_payload_to_json
  chain-written type_of marshal_json next s name m b typed meta json =
      add_struct_name_to_metadata-stamped type_of (marshall_payload_to_json marshal_json next) s
        name m typed meta
      ∙ ap (λ x. with_payload next (encoded x) (stamped name m s)) json

  made_message :
      (sprint : Value → String) (channel : Channel W) (exchange : Destination)
      (config : Config W AmqpMessage) (s s' : Run W) (name : String) (m : Map Value) (b : List ℕ)
      (msg : AmqpMessage)
      → new_amqp_publisher channel
          (some (constant_fn exchange))
          (some (routing_key_fn sprint))
          message_options
          []
        ≡ inr config
      → sprint (str name) ≡ name
      → config.message_marshaller (written name m b s) ≡ ok msg s'
      → (msg.publishing.body ≡ b)
        × (msg.publishing.headers ≡ insert "event_type" (str name) m)
        × (msg.routing_key ≡ name)
  unfolding new_amqp_publisher apply_options check_defaults marshal routing_key_fn
      metadata_as_headers
  made_message sprint channel exchange config s s' name m b msg made printed h =
      let made_by = ap marshalled_by made ∙ h in
      (
        sym (ap (λ r. body_in r) made_by),
        sym (ap (λ r. headers_in r) made_by),
        sym (ap (λ r. key_in r) made_by)
            ∙ (ap (key_of sprint) (lookup-insert_self "event_type" (str name) m) ∙ printed),
      )
    where
      marshalled_by : Error ⊎ Config W AmqpMessage → Ret W AmqpMessage
      marshalled_by (inl e) = failed e s
      marshalled_by (inr c) = c.message_marshaller (written name m b s)

      body_in : Ret W AmqpMessage → List ℕ
      body_in (ok x t) = x.publishing.body
      body_in (failed e t) = []
      body_in (panicked v t) = []

      headers_in : Ret W AmqpMessage → Map Value
      headers_in (ok x t) = x.publishing.headers
      headers_in (failed e t) = []
      headers_in (panicked v t) = []

      key_in : Ret W AmqpMessage → String
      key_in (ok x t) = x.routing_key
      key_in (failed e t) = ""
      key_in (panicked v t) = ""

-- What is done with an event of a name, given the bytes of its payload: by the router of the example.
abbrev pub outcome_of :
    {W T U : Type 0}
    → (List ℕ → Error ⊎ Value)
    → (List ℕ → Error ⊎ Value)
    → GoType T
    → GoType U
    → (T → Handler W)
    → (U → Handler W)
    → Handler W
    → String
    → List ℕ
    → Handler W
outcome_of unmarshal_1 unmarshal_2 event_1 event_2 on_event_1 on_event_2 default_handler name b t =
    if "DummyEvent1" == name
    then with_payload (handle_with_payload event_1 on_event_1) (unmarshal_1 b) t
    else if "DummyEvent2" == name
    then with_payload (handle_with_payload event_2 on_event_2) (unmarshal_2 b) t
    else default_handler t

-- An event of the amqp example, whose payload has a JSON form. The middlewares
-- AddStructNameToMetadata and MarshallPayloadToJson hand on the message with the name of the payload's
-- type and with the JSON as its payload. What the publisher makes of that has the name as its routing
-- key. When its body and its headers are delivered, the message that the subscriber makes of the
-- delivery is handled by the router of the example: DummyEvent1 and DummyEvent2 each by its handler,
-- with what the type reads back from the JSON as the payload, or with the error of that; every other
-- event by the default handler.
pub amqp_event_arrives :
    {W T U : Type 0} (type_of : Value → Option TypeInfo) (marshal_json : Value → Error ⊎ List ℕ)
    (sprint : Value → String) (unmarshal_1 unmarshal_2 : List ℕ → Error ⊎ Value)
    (event_1 : GoType T) (event_2 : GoType U) (on_event_1 : T → Handler W)
    (on_event_2 : U → Handler W) (default_handler next : Handler W) (channel : Channel W)
    (exchange : Destination) (config : Config W AmqpMessage) (router : SubscriptionRouter W)
    (s s' t : Run W) (name : String) (m : Map Value) (b : List ℕ) (msg : AmqpMessage)
    (ctx : Context) (d : AmqpDelivery W)
    → new_amqp_publisher channel
        (some (constant_fn exchange))
        (some (routing_key_fn sprint))
        message_options
        []
      ≡ inr config
    → demo_router sprint unmarshal_1 unmarshal_2 event_1 event_2 on_event_1 on_event_2
        default_handler
      ≡ some router
    → get_type_name (type_of s.message.payload) ≡ some name
    → s.message.metadata ≡ some m
    → marshal_json s.message.payload ≡ inr b
    → sprint (str name) ≡ name
    → config.message_marshaller (written name m b s) ≡ ok msg s'
    → d.body ≡ msg.publishing.body
    → d.headers ≡ some msg.publishing.headers
    → t.message ≡ to_message ctx d
    → (add_struct_name_to_metadata type_of (marshall_payload_to_json marshal_json next) s
        ≡ next (written name m b s))
      × (msg.routing_key ≡ name)
      × (handler_func router t
          ≡ outcome_of unmarshal_1 unmarshal_2 event_1 event_2 on_event_1 on_event_2 default_handler
              name b t)
unfolding unmarshall_payload_from_json to_message new_message
amqp_event_arrives {W} type_of marshal_json sprint unmarshal_1 unmarshal_2 event_1 event_2
      on_event_1 on_event_2 default_handler next channel exchange config router s s' t name m b msg
      ctx d made routes typed meta json printed entry body headers arrived =
    let (same_body, same_headers, key) =
      made_message sprint channel exchange config s s' name m b msg made printed entry in
    let payload : t.message.payload ≡ bytes b =
      ap (λ (x : Message). x.payload) arrived ∙ ap bytes (body ∙ same_body) in
    let metadata : entries t.message.metadata ≡ insert "event_type" (str name) m =
      ap (λ (x : Message). entries x.metadata) arrived
      ∙ (ap (λ o. entries (metadata_of o)) headers ∙ same_headers) in
    let routed : sprint (or_nil (lookup "event_type" (entries t.message.metadata))) ≡ name =
      ap (λ x. sprint (or_nil (lookup "event_type" x))) metadata
      ∙ (ap (λ o. sprint (or_nil o)) (lookup-insert_self "event_type" (str name) m) ∙ printed) in
    (
      chain-written type_of marshal_json next s name m b typed meta json,
      key,
      demo_router-routes sprint unmarshal_1 unmarshal_2 event_1 event_2 on_event_1 on_event_2
            default_handler router name t routes routed
          ∙ handled ("DummyEvent1" == name) ("DummyEvent2" == name) payload,
    )
  where
    handled :
        (x y : Bool)
        → t.message.payload ≡ bytes b
        → handled_by sprint unmarshal_1 unmarshal_2 event_1 event_2 on_event_1 on_event_2
            default_handler x y t
          ≡ (if x
              then with_payload (handle_with_payload event_1 on_event_1) (unmarshal_1 b) t
              else if y
              then with_payload (handle_with_payload event_2 on_event_2) (unmarshal_2 b) t
              else default_handler t)
    handled true y e =
        ap (λ p. with_payload (handle_with_payload event_1 on_event_1) (decoded unmarshal_1 p) t) e
    handled false true e =
        ap (λ p. with_payload (handle_with_payload event_2 on_event_2) (decoded unmarshal_2 p) t) e
    handled false false e = refl
