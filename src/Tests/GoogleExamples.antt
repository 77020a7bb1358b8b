-- ===== src/Tests/GoogleExamples.antt =====
-- The events of the google example, at concrete inputs.
use expedit.Prelude.{
  ℕ, String, false, true, Option, none, some, List, [], ◌∷◌, ◌≡◌, refl, ◌⊎◌, inr, lookup, insert,
  collect,
}
use expedit.Go.Value.{pos, Value, str, int, boolean, other, Error}
use expedit.Go.Number.{format_int}
use expedit.Go.Context.{background}
use expedit.Handler.{Run, ok, Handler, GoType, handle_with_payload}
use expedit.Middleware.Chain.{new_chain, add}
use expedit.Publisher.Destinations.{Config, constant_fn}
use expedit.Subscriber.Router.{
  SubscriptionRouter, handler_func, new_router, route_from_metadata_key, add_handler,
  add_middleware, handle, add_default_handler,
}
use expedit.Google.Json.{marshall_payload_to_json, unmarshall_payload_from_json}
use expedit.Google.Publisher as Sending
use expedit.Google.Publisher.{
  PubsubMessage, Topic, marshal, config, metadata_as_attributes, new_google_publisher,
}
use expedit.Google.Subscriber as Consuming
use expedit.Google.Subscriber.{
  GoogleSubscriber, Received, to_message, new_google_subscriber, default_processing_timeout,
}
use expedit.Google.Subscriber.Attributes.{Prints, IsDelivered}
use expedit.Examples.{TypeInfo, get_type_name, add_struct_name_to_metadata}
use expedit.Examples.Amqp.Arrival.{written}
use expedit.Examples.Google.{demo_router}
use expedit.Examples.Google.Arrival.{google_event_arrives}

abbrev event_1 : Value
event_1 = other "DummyEvent1" 7

abbrev type_of : Value → Option TypeInfo
type_of v = some (record { is_pointer = false; name = "DummyEvent1"; elem_name = "" })

abbrev json : List ℕ
json = 123 ∷ 125 ∷ []

abbrev marshal_json : Value → Error ⊎ List ℕ
marshal_json v = inr json

abbrev unmarshal : List ℕ → Error ⊎ Value
unmarshal b = inr event_1

abbrev print : Value → String
print (str s) = s
print (int i) = format_int i
print (boolean true) = "true"
print (boolean false) = "false"
print v = "?"

prints : Prints print
prints = record { text = λ s. refl; number = λ i. refl; truth = refl; falsity = refl }

abbrev dummy : GoType ℕ
dummy = record { name = "DummyEvent1"; is_interface = false; assert = λ v. some 7 }

abbrev on_event : ℕ → Handler ℕ
on_event n s = ok tt (record s { world = n })

abbrev on_others : Handler ℕ
on_others s = ok tt s

abbrev topic : Topic ℕ
topic = record { publish = λ ctx m s. ok "77" s; resume_publish = λ key s. s; stop = λ s. s }

abbrev client : Sending.Client ℕ
client dest ordered = topic

abbrev receiver : Consuming.Client Unit ℕ
receiver name settings ctx callback s = ok tt s

abbrev plain : Config ℕ PubsubMessage
plain = config client (constant_fn "orders") (record {
  ordering_key_provider = none;
  attributes_provider = some (metadata_as_attributes print);
})

abbrev sub : GoogleSubscriber Unit ℕ
sub = record {
  client = receiver;
  subscription = "orders";
  options = record {
    processing_timeout = pos default_processing_timeout;
    receive_settings = tt;
    parse_attributes = false;
  };
}

abbrev router : SubscriptionRouter ℕ
router = record {
  generator = route_from_metadata_key print "event_type";
  builders =
      record {
        handler = some (handle_with_payload dummy on_event);
        mc = record { middlewares = unmarshall_payload_from_json unmarshal ∷ [] };
      }
      ∷ [];
  routes_by_type = ("DummyEvent1", 0) ∷ [];
  default_route = some on_others;
  ack_on_unknown_route = false;
}

abbrev start : Run ℕ
start = record {
  message = record { id = ""; metadata = some []; payload = event_1; ctx = background };
  world = 0;
  now = 0;
  next_scope = 0;
  cancelled = [];
}

abbrev msg : PubsubMessage
msg = record {
  id = "";
  body = json;
  ordering_key = "";
  attributes = ("event_type", "DummyEvent1") ∷ [];
}

abbrev received : Received ℕ
received = record {
  id = "77";
  body = json;
  attributes = ("event_type", "DummyEvent1") ∷ [];
  ack = λ s. s;
  nack = λ s. s;
}

delivered : IsDelivered (msg.attributes) received
unfolding lookup
delivered = record { each = λ key. refl; once = (refl, tt) }

abbrev there : Run ℕ
there = record start { message = to_message (λ v. none) sub background received }

google_event_arrives_example :
    (add_struct_name_to_metadata type_of (marshall_payload_to_json marshal_json on_others) start
      ≡ on_others (written "DummyEvent1" [] json start))
    × (handler_func router there
        ≡ handle_with_payload dummy on_event
            (record there { message = record (there.message) { payload = event_1 } }))
unfolding new_google_publisher Sending.apply_options new_google_subscriber Consuming.apply_options
    demo_router new_router add_handler add_middleware handle add_default_handler new_chain add
    get_type_name config marshal metadata_as_attributes collect insert lookup
google_event_arrives_example =
    google_event_arrives type_of marshal_json print (λ v. none) unmarshal dummy on_event on_others
      on_others client "orders" plain tt receiver "orders" sub router start
      (written "DummyEvent1" [] json start) there "DummyEvent1" [] json msg background received refl
      refl refl refl refl tt refl prints refl refl delivered refl
