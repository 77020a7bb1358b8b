-- ===== src/Examples/Google/Arrival.antt =====
-- An event of the google example, from its publisher to its handler.
use expedit.Prelude.{
  ℕ, String, Bool, Bool-cases, true, false, Option, some, some_inj, List, [], ◌≡◌, refl, sym, ap,
  subst, ◌∙◌, ◌⊎◌, inl, inr, Map, IsMap, lookup, insert, lookup-insert_self, insert-IsMap, ◌==◌,
  if◌then◌else◌,
}
use expedit.Go.Value.{Value, str, bytes, Error}
use expedit.Go.Context.{Context}
use expedit.Message.{Message, entries, new_message}
use expedit.Handler.{Run, Ret, ok, failed, panicked, Handler, GoType, handle_with_payload}
use expedit.Middleware.Chain.{new_chain, add, wrap}
use expedit.Publisher.Destinations.{Config, Destination, constant_fn}
use expedit.Subscriber.Router.{
  SubscriptionRouter, or_nil, handler_func, new_router, route_from_metadata_key, add_handler,
  add_middleware, handle, add_default_handler, route, unroutable,
}
use expedit.Amqp.Json.{with_payload, decoded, encoded}
use expedit.Google.Json.{marshall_payload_to_json, unmarshall_payload_from_json}
use expedit.Google.Publisher as Sending
use expedit.Google.Publisher.{
  PubsubMessage, marshal, config, metadata_as_attributes, new_google_publisher,
}
use expedit.Google.Subscriber as Consuming
use expedit.Google.Subscriber.{GoogleSubscriber, Received, to_message, new_google_subscriber}
use expedit.Google.Subscriber.Attributes.{Prints, IsDelivered, Survives, attributes_arrive}
use expedit.Examples.{TypeInfo, get_type_name, add_struct_name_to_metadata}
use expedit.Examples.Naming.{stamped, add_struct_name_to_metadata-stamped}
use expedit.Examples.Amqp.Arrival.{written}
use expedit.Examples.Google.{demo_router}

module _ {W T : Type 0} (sprint : Value → String) (unmarshal : List ℕ → Error ⊎ Value)
    (event : GoType T) (on_event : T → Handler W) (default_handler : Handler W) where
  -- The handlers of an event, by whether its name is that of the route.
  abbrev pub handled_by : Bool → Handler W
  handled_by true = unmarshall_payload_from_json unmarshal (handle_with_payload event on_event)
  handled_by false = default_handler

  demo_router-routes :
      (router : SubscriptionRouter W) (name : String) (t : Run W)
      → demo_router sprint unmarshal event on_event default_handler ≡ some router
      → sprint (or_nil (lookup "event_type" (entries t.message.metadata))) ≡ name
      → handler_func router t ≡ handled_by ("DummyEvent1" == name) t
  unfolding demo_router handler_func new_router route_from_metadata_key add_handler add_middleware
      handle add_default_handler new_chain add route unroutable wrap lookup insert
  demo_router-routes router name t h e =
      ap (λ r. handler_func r t) (sym (some_inj h))
      ∙ rw (handler_func, e)
          (elim (Bool-cases ("DummyEvent1" == name)) [ inl y ↦ rw y refl | inr n ↦ rw n refl ])

module _ {W : Type 0} where
  -- The rest of the publisher's chain.
  chain-written :
      (type_of : Value → Option TypeInfo) (marshal_json : Value → Error ⊎ List ℕ) (next : Handler W)
      (s : Run W) (name : String) (m : Map Value) (b : List ℕ)
      → get_type_name (type_of s.message.payload) ≡ some name
      → s.message.metadata ≡ some m
      → marshal_json s.message.payload ≡ inr b
      → add_struct_name_to_metadata type_of (marshall_payload_to_json marshal_json next) s
        ≡ next (written name m b s)
  unfolding marshall_payload_to_json
  chain-written type_of marshal_json next s name m b typed meta json =
      add_struct_name_to_metadata-stamped type_of (marshall_payload_to_json marshal_json next) s
        name m typed meta
      ∙ ap (λ x. with_payload next (encoded x) (stamped name m s)) json

  marshalled_by : Run W → Error ⊎ Config W PubsubMessage → Ret W PubsubMessage
  marshalled_by s (inl e) = failed e s
  marshalled_by s (inr c) = c.message_marshaller s

  message_or : PubsubMessage → Ret W PubsubMessage → PubsubMessage
  message_or d (ok x t) = x
  message_or d (failed e t) = d
  message_or d (panicked v t) = d

  made_message :
      (sprint : Value → String) (client : Sending.Client W) (topic : Destination)
      (c : Config W PubsubMessage) (s s' : Run W) (name : String) (m : Map Value) (b : List ℕ)
      (msg : PubsubMessage)
      → new_google_publisher sprint (some client) (some (constant_fn topic)) [] ≡ inr c
      → c.message_marshaller (written name m b s) ≡ ok msg s'
      → (msg.body ≡ b)
        × (msg.attributes ≡ metadata_as_attributes sprint (written name m b s).message)
  unfolding new_google_publisher Sending.apply_options config marshal marshalled_by message_or
  made_message sprint client topic c s s' name m b msg made h =
      let made_by = ap (message_or msg) (ap (marshalled_by (written name m b s)) made ∙ h) in
      (
        sym (ap (λ (x : PubsubMessage). x.body) made_by),
        sym (ap (λ (x : PubsubMessage). x.attributes) made_by),
      )

  parses : {Settings : Type 0} → Error ⊎ GoogleSubscriber Settings W → Bool
  parses (inl e) = false
  parses (inr sub) = sub.options.parse_attributes

  new_google_subscriber-plain :
      {Settings : Type 0} (unset : Settings) (client : Consuming.Client Settings W)
      (subscription : String) (sub : GoogleSubscriber Settings W)
      → new_google_subscriber unset (some client) subscription [] ≡ inr sub
      → sub.options.parse_attributes ≡ false
  unfolding new_google_subscriber Consuming.apply_options parses
  new_google_subscriber-plain unset client subscription sub h = sym (ap parses h)

-- An event of the google example, whose payload has a JSON form. The middlewares
-- AddStructNameToMetadata and MarshallPayloadToJson hand on the message with the name of the payload's
-- type and with the JSON as its payload. When the body of what the publisher makes of that, and each of
-- its attributes, is delivered, then the message that the subscriber makes of the delivery is handled by
-- the router of the example: DummyEvent1 by its handler, with what is read back from the JSON as the
-- payload, or with the error of that; every other event by the default handler.
pub google_event_arrives :
    {W T Settings : Type 0} (type_of : Value → Option TypeInfo)
    (marshal_json : Value → Error ⊎ List ℕ) (sprint : Value → String)
    (parse_float : String → Option ℕ) (unmarshal : List ℕ → Error ⊎ Value) (event : GoType T)
    (on_event : T → Handler W) (default_handler next : Handler W) (client : Sending.Client W)
    (topic : Destination) (c : Config W PubsubMessage) (unset : Settings)
    (receiver : Consuming.Client Settings W) (subscription : String)
    (sub : GoogleSubscriber Settings W) (router : SubscriptionRouter W) (s s' t : Run W)
    (name : String) (m : Map Value) (b : List ℕ) (msg : PubsubMessage) (ctx : Context)
    (d : Received W)
    → new_google_publisher sprint (some client) (some (constant_fn topic)) [] ≡ inr c
    → new_google_subscriber unset (some receiver) subscription [] ≡ inr sub
    → demo_router sprint unmarshal event on_event default_handler ≡ some router
    → get_type_name (type_of s.message.payload) ≡ some name
    → s.message.metadata ≡ some m
    → IsMap m
    → marshal_json s.message.payload ≡ inr b
    → Prints sprint
    → c.message_marshaller (written name m b s) ≡ ok msg s'
    → d.body ≡ msg.body
    → IsDelivered msg.attributes d
    → t.message ≡ to_message parse_float sub ctx d
    → (add_struct_name_to_metadata type_of (marshall_payload_to_json marshal_json next) s
        ≡ next (written name m b s))
      × (handler_func router t ≡ (
          if "DummyEvent1" == name
          then with_payload (handle_with_payload event on_event) (unmarshal b) t
          else default_handler t))
unfolding unmarshall_payload_from_json to_message new_message
google_event_arrives {W} type_of marshal_json sprint parse_float unmarshal event on_event
      default_handler next client topic c unset receiver subscription sub router s s' t name m b msg
      ctx d made received routes typed meta once json prints entry body attributes arrived =
    let (same_body, same_attributes) =
      made_message sprint client topic c s s' name m b msg made entry in
    let payload : t.message.payload ≡ bytes b =
      ap (λ (x : Message). x.payload) arrived ∙ ap bytes (body ∙ same_body) in
    let found =
      attributes_arrive sprint parse_float prints sub ctx (written name m b s).message d
        "event_type" (str name) (insert-IsMap "event_type" (str name) m once)
        (subst (λ a. IsDelivered a d) same_attributes attributes)
        (lookup-insert_self "event_type" (str name) m)
        (survives (new_google_subscriber-plain unset receiver subscription sub received)) in
    let routed : sprint (or_nil (lookup "event_type" (entries t.message.metadata))) ≡ name =
      ap (λ (x : Message). sprint (or_nil (lookup "event_type" (entries x.metadata)))) arrived
      ∙ (ap (λ o. sprint (or_nil o)) found ∙ prints.text name) in
    (
      chain-written type_of marshal_json next s name m b typed meta json,
      demo_router-routes sprint unmarshal event on_event default_handler router name t routes routed
          ∙ handled ("DummyEvent1" == name) payload,
    )
  where
    survives : {p : Bool} → p ≡ false → Survives parse_float p (str name)
    survives e = subst (λ p. Survives parse_float p (str name)) (sym e) tt

    handled :
        (x : Bool)
        → t.message.payload ≡ bytes b
        → handled_by sprint unmarshal event on_event default_handler x t ≡ (
            if x
            then with_payload (handle_with_payload event on_event) (unmarshal b) t
            else default_handler t)
    handled true e =
        ap (λ p. with_payload (handle_with_payload event on_event) (decoded unmarshal p) t) e
    handled false e = refl
