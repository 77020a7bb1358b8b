-- ===== src/Examples/Redis/Arrival.antt =====
-- An event of the redis example, from its publisher to its handler.
use expedit.Prelude.{
  ℕ, String, Bool, Bool-cases, true, false, Option, none, some, some_inj, List, [], ◌∷◌, ◌≡◌, refl,
  sym, ap, ◌∙◌, ◌⊎◌, inl, inr, has_prefix, strip_prefix, Map, lookup, insert, lookup-insert_self,
  insert-IsMap, IsMap, ◌==◌, if◌then◌else◌,
}
use expedit.Go.Value.{Value, nil, str, bytes, dict, Error, to_map, to_fields}
use expedit.Go.Context.{Context}
use expedit.Message.{Message, entries, new_message}
use expedit.Handler.{Run, Ret, ok, failed, Handler, GoType, handle_with_payload}
use expedit.Publisher.Destinations.{Config, Destination, constant_fn}
use expedit.Subscriber.Router.{
  SubscriptionRouter, or_nil, handler_func, new_router, route_from_metadata_key, add_handler,
  add_middleware, handle, add_default_handler, route, unroutable,
}
use expedit.Middleware.Chain.{new_chain, add, wrap}
use expedit.Redis.Values.{MessageWrapper, prefix_metadata_extractor, non_prefix_payload_extractor}
use expedit.Redis.Entries.{
  published, lookup-published, lookup-prefixed, over, read_metadata, read_payload,
}
use expedit.Redis.RoundTrip.{marshal-values}
use expedit.Redis.Json.{marshall_payload_to_json_map, unmarshall_map_payload_from_json}
use expedit.Redis.Publisher.{
  XAddArgs, new_redis_publisher, apply_options as apply_publisher_options,
}
use expedit.Redis.Subscriber.{
  RedisSubscriber, new_redis_subscriber, apply_options, with_start_id, with_metadata_extractor,
  with_payload_extractor, checked,
}
use expedit.Redis.Subscriber.Receiving.{to_message}
use expedit.Examples.{TypeInfo, get_type_name, add_struct_name_to_metadata}
use expedit.Examples.Naming.{stamped, add_struct_name_to_metadata-stamped}
use expedit.Examples.Redis.{publisher_options, subscriber_options, demo_router}

-- What redis promises of the values of an entry: a text arrives as it was added, and bytes as the text
-- that they spell. `utf8` gives the bytes of a text.
pub record IsCarried (utf8 : String → List ℕ) (added got : Map Value) : Type 0 where
  pub text :
      (key text : String) → lookup key added ≡ some (str text) → lookup key got ≡ some (str text)
  pub body :
      (key : String) (b : List ℕ)
      → lookup key added ≡ some (bytes b)
      → (text : String) × (lookup key got ≡ some (str text)) × (utf8 text ≡ b)
  pub once : IsMap got

to_map-to_fields : (m : Map Value) → to_map (to_fields m) ≡ m
to_map-to_fields [] = refl
to_map-to_fields ((k, v) ∷ m) = ap (λ x. (k, v) ∷ x) (to_map-to_fields m)

-- What redis carries: the name of the event and the bytes of its payload.
carried :
    (utf8 : String → List ℕ) (name : String) (m : Map Value) (b : List ℕ) (added : Map Value)
    (w : MessageWrapper)
    → IsMap m
    → added ≡ published "metadata_" (insert "event_type" (str name) m) (("json", bytes b) ∷ [])
    → IsCarried utf8 added w.msg.values
    → (lookup "event_type" (prefix_metadata_extractor "metadata_" w) ≡ some (str name))
      × ((text : String) × (lookup "json" (non_prefix_payload_extractor "metadata_" w)
            ≡ some (str text))
          × (utf8 text ≡ b))
unfolding lookup has_prefix strip_prefix
carried utf8 name m b added w h e c =
    let stamps = insert "event_type" (str name) m in
    let payload : Map Value = ("json", bytes b) ∷ [] in
    let stamps_once = insert-IsMap "event_type" (str name) m h in
    let (text, got, spelt) = c.body "json" b (
      ap (lookup "json") e
      ∙ lookup-published "metadata_" "json" stamps payload stamps_once (refl, tt)) in
    let named_added : lookup "metadata_event_type" added ≡ some (str name) =
      ap (lookup "metadata_event_type") e
      ∙ (lookup-published "metadata_" "metadata_event_type" stamps payload stamps_once (refl, tt)
          ∙ ap (λ o. over o none)
              (lookup-prefixed "metadata_" "event_type" stamps stamps_once
                ∙ lookup-insert_self "event_type" (str name) m)) in
    (
      read_metadata "metadata_" "event_type" w (some name) c.once
          (c.text "metadata_event_type" name named_added),
      (text, read_payload "metadata_" "json" w c.once refl ∙ got, spelt),
    )

module _ {W : Type 0} where
  -- The middleware of the handler finds the payload under the key.
  unmarshalled :
      (utf8 : String → List ℕ) (type_name : Value → String) (unmarshal : List ℕ → Error ⊎ Value)
      (key text : String) (values : Map Value) (p : Value) (next : Handler W) (t : Run W)
      → t.message.payload ≡ dict (to_fields values)
      → lookup key values ≡ some (str text)
      → unmarshal (utf8 text) ≡ inr p
      → unmarshall_map_payload_from_json utf8 type_name unmarshal key next t
        ≡ next (record t { message = record (t.message) { payload = p } })
  unfolding unmarshall_map_payload_from_json
  unmarshalled utf8 type_name unmarshal key text values p next t e found u =
      let in_map = ap (lookup key) (to_map-to_fields values) ∙ found in rw (e, in_map, u) refl

  module _ {T : Type 0} (sprint : Value → String) (utf8 : String → List ℕ)
      (type_name : Value → String) (unmarshal : List ℕ → Error ⊎ Value) (event : GoType T)
      (on_event : T → Handler W) (default_handler : Handler W) where
    -- The handler of an event by its name.
    abbrev routed_to : Bool → Handler W
    routed_to true =
        unmarshall_map_payload_from_json utf8 type_name unmarshal "json"
          (handle_with_payload event on_event)
    routed_to false = default_handler

    demo_router-routes :
        (router : SubscriptionRouter W) (name : String) (t : Run W)
        → demo_router sprint utf8 type_name unmarshal event on_event default_handler ≡ some router
        → sprint (or_nil (lookup "event_type" (entries t.message.metadata))) ≡ name
        → handler_func router t ≡ routed_to ("DummyEvent1" == name) t
    unfolding demo_router handler_func new_router route_from_metadata_key add_handler add_middleware
        handle add_default_handler new_chain add route unroutable wrap lookup insert
    demo_router-routes router name t h e =
        ap (λ r. handler_func r t) (sym (some_inj h))
        ∙ rw (handler_func, e)
            (elim (Bool-cases ("DummyEvent1" == name)) [ inl y ↦ rw y refl | inr n ↦ rw n refl ])

  -- What the subscriber of the example makes of an entry.
  subscriber_message :
      (stream : String) (sub : RedisSubscriber W) (ctx : Context) (w : MessageWrapper)
      → new_redis_subscriber true stream subscriber_options ≡ inr sub
      → ((to_message sub ctx w).payload
          ≡ dict (to_fields (non_prefix_payload_extractor "metadata_" w)))
        × (entries (to_message sub ctx w).metadata ≡ prefix_metadata_extractor "metadata_" w)
  unfolding new_redis_subscriber apply_options with_start_id with_metadata_extractor
      with_payload_extractor checked to_message new_message
  subscriber_message stream sub ctx w h = (sym (ap payload_of h), sym (ap metadata_of h))
    where
      payload_of : Error ⊎ RedisSubscriber W → Value
      payload_of (inl e) = nil
      payload_of (inr x) = (to_message x ctx w).payload

      metadata_of : Error ⊎ RedisSubscriber W → Map Value
      metadata_of (inl e) = []
      metadata_of (inr x) = entries (to_message x ctx w).metadata

  -- What the publisher of the example adds to the stream.
  published_values :
      (marshal_json : Value → Error ⊎ List ℕ) (client : Context → XAddArgs → Handler W)
      (stream : Destination) (config : Config W XAddArgs) (s s' : Run W) (b : List ℕ)
      (args : XAddArgs)
      → new_redis_publisher
          (some client)
          (some (constant_fn stream))
          (some (marshall_payload_to_json_map marshal_json "json"))
          publisher_options
        ≡ inr config
      → marshal_json s.message.payload ≡ inr b
      → config.message_marshaller s ≡ ok args s'
      → args.values ≡ published "metadata_" (entries s.message.metadata) (("json", bytes b) ∷ [])
  unfolding new_redis_publisher apply_publisher_options marshall_payload_to_json_map
  published_values marshal_json client stream config s s' b args made json h =
      let payload : marshall_payload_to_json_map marshal_json "json" s
          ≡ ok (("json", bytes b) ∷ []) s =
        rw (marshall_payload_to_json_map, json) refl in
      marshal-values "metadata_" _ (marshall_payload_to_json_map marshal_json "json") s payload
        (ap marshalled_by made ∙ h)
    where
      marshalled_by : Error ⊎ Config W XAddArgs → Ret W XAddArgs
      marshalled_by (inl e) = failed e s
      marshalled_by (inr c) = c.message_marshaller s

  -- An event of the redis example, whose payload has a JSON form that its type reads back. The middleware
  -- AddStructNameToMetadata hands on the message with the name of the payload's type; when the publisher
  -- has made an entry of that message, and redis has carried the entry, then the message that the
  -- subscriber makes of it is handled by the router of the example like this: if the name is
  -- DummyEvent1, by the handler of that event, which sees the payload that was published; else by the
  -- default handler.
  pub event_arrives :
      {T : Type 0} (type_of : Value → Option TypeInfo) (marshal_json : Value → Error ⊎ List ℕ)
      (sprint : Value → String) (utf8 : String → List ℕ) (type_name : Value → String)
      (unmarshal : List ℕ → Error ⊎ Value) (event : GoType T) (on_event : T → Handler W)
      (default_handler next : Handler W) (client : Context → XAddArgs → Handler W) (stream : String)
      (config : Config W XAddArgs) (sub : RedisSubscriber W) (router : SubscriptionRouter W)
      (s s' t : Run W) (name : String) (m : Map Value) (b : List ℕ) (args : XAddArgs)
      (ctx : Context) (w : MessageWrapper)
      → new_redis_publisher
          (some client)
          (some (constant_fn stream))
          (some (marshall_payload_to_json_map marshal_json "json"))
          publisher_options
        ≡ inr config
      → new_redis_subscriber true stream subscriber_options ≡ inr sub
      → demo_router sprint utf8 type_name unmarshal event on_event default_handler ≡ some router
      → get_type_name (type_of s.message.payload) ≡ some name
      → s.message.metadata ≡ some m
      → IsMap m
      → marshal_json s.message.payload ≡ inr b
      → unmarshal b ≡ inr s.message.payload
      → sprint (str name) ≡ name
      → config.message_marshaller (stamped name m s) ≡ ok args s'
      → IsCarried utf8 args.values w.msg.values
      → t.message ≡ to_message sub ctx w
      → (add_struct_name_to_metadata type_of next s ≡ next (stamped name m s))
        × (handler_func router t ≡ (
            if "DummyEvent1" == name
            then handle_with_payload event on_event
                (record t { message = record (t.message) { payload = s.message.payload } })
            else default_handler t))
  event_arrives type_of marshal_json sprint utf8 type_name unmarshal event on_event default_handler
        next client stream config sub router s s' t name m b args ctx w made subscribed built typed
        meta once json back printed entry carries arrived =
      let values =
        published_values marshal_json client stream config (stamped name m s) s' b args made json
          entry in
      let (name_there, (text, text_there, spelt)) =
        carried utf8 name m b args.values w once values carries in
      let (payload, metadata) = subscriber_message stream sub ctx w subscribed in
      let key : sprint (or_nil (lookup "event_type" (entries t.message.metadata))) ≡ name =
        ap (λ (x : Message). sprint (or_nil (lookup "event_type" (entries x.metadata)))) arrived
        ∙ (ap (λ x. sprint (or_nil (lookup "event_type" x))) metadata
            ∙ (ap (λ o. sprint (or_nil o)) name_there ∙ printed)) in
      (
        add_struct_name_to_metadata-stamped type_of next s name m typed meta,
        demo_router-routes sprint utf8 type_name unmarshal event on_event default_handler router
              name t built key
            ∙ handled ("DummyEvent1" == name) (
                unmarshalled utf8 type_name unmarshal "json" text
                  (non_prefix_payload_extractor "metadata_" w) s.message.payload
                  (handle_with_payload event on_event) t
                  (ap (λ (x : Message). x.payload) arrived ∙ payload) text_there
                  (ap unmarshal spelt ∙ back)),
      )
    where
      handled :
          (x : Bool)
          → unmarshall_map_payload_from_json utf8 type_name unmarshal "json"
              (handle_with_payload event on_event)
              t
            ≡ handle_with_payload event on_event
                (record t { message = record (t.message) { payload = s.message.payload } })
          → routed_to sprint utf8 type_name unmarshal event on_event default_handler x t ≡ (
              if x
              then handle_with_payload event on_event
                  (record t { message = record (t.message) { payload = s.message.payload } })
              else default_handler t)
      handled true e = e
      handled false e = refl
