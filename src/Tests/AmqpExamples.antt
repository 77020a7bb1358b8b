-- ===== src/Tests/AmqpExamples.antt =====
-- The events of the amqp example, at concrete inputs.
use expedit.Prelude.{
  ℕ, String, false, Option, some, List, [], ◌∷◌, ◌≡◌, refl, ◌⊎◌, inr, Map, lookup, insert,
}
use expedit.Go.Value.{Value, str, other, Error}
use expedit.Go.Context.{background}
use expedit.Handler.{Run, ok, Handler, GoType, handle_with_payload}
use expedit.Middleware.Chain.{new_chain, add}
use expedit.Publisher.Destinations.{Config, constant_fn}
use expedit.Subscriber.Router.{
  SubscriptionRouter, handler_func, new_router, route_from_metadata_key, add_handler,
  add_middleware, handle, add_default_handler,
}
use expedit.Amqp.Headers.{metadata_as_headers}
use expedit.Amqp.Json.{marshall_payload_to_json, unmarshall_payload_from_json}
use expedit.Amqp.Publisher.{
  Channel, AmqpMessage, marshal, exchange_publisher, check_defaults, default_options,
  new_amqp_publisher, apply_options,
}
use expedit.Amqp.Subscriber.{AmqpDelivery, to_message}
use expedit.Examples.{TypeInfo, get_type_name, add_struct_name_to_metadata}
use expedit.Examples.Amqp.{routing_key_fn, message_options, demo_router}
use expedit.Examples.Amqp.Arrival.{written, amqp_event_arrives}

abbrev event_2 : Value
event_2 = other "DummyEvent2" 7

abbrev type_of : Value → Option TypeInfo
type_of v = some (record { is_pointer = false; name = "DummyEvent2"; elem_name = "" })

abbrev json : List ℕ
json = 123 ∷ 125 ∷ []

abbrev marshal_json : Value → Error ⊎ List ℕ
marshal_json v = inr json

abbrev unmarshal : List ℕ → Error ⊎ Value
unmarshal b = inr event_2

abbrev sprint : Value → String
sprint (str s) = s
sprint v = ""

abbrev dummy : GoType ℕ
dummy = record { name = "DummyEvent2"; is_interface = false; assert = λ v. some 7 }

abbrev on_event : ℕ → Handler ℕ
on_event n s = ok tt (record s { world = n })

abbrev on_others : Handler ℕ
on_others s = ok tt s

abbrev channel : Channel ℕ
channel = record { publish = λ x k m i p s. ok tt s; close = λ s. ok tt s }

abbrev config : Config ℕ AmqpMessage
config = record {
  routing_func = constant_fn "demo";
  message_marshaller = marshal (routing_key_fn sprint) message_options default_options;
  get_destination_publisher = λ dest s. ok (exchange_publisher channel dest) s;
}

abbrev router : SubscriptionRouter ℕ
router = record {
  generator = route_from_metadata_key sprint "event_type";
  builders =
      record {
        handler = some (handle_with_payload dummy on_event);
        mc = record { middlewares = unmarshall_payload_from_json unmarshal ∷ [] };
      }
      ∷ record {
        handler = some (handle_with_payload dummy on_event);
        mc = record { middlewares = unmarshall_payload_from_json unmarshal ∷ [] };
      }
      ∷ [];
  routes_by_type = ("DummyEvent1", 0) ∷ ("DummyEvent2", 1) ∷ [];
  default_route = some on_others;
  ack_on_unknown_route = false;
}

abbrev start : Run ℕ
start = record {
  message = record { id = ""; metadata = some []; payload = event_2; ctx = background };
  world = 0;
  now = 0;
  next_scope = 0;
  cancelled = [];
}

abbrev headers : Map Value
headers = ("event_type", str "DummyEvent2") ∷ []

abbrev msg : AmqpMessage
msg = record {
  publishing = record {
    content_type = "application/json";
    priority = 0;
    delivery_mode = 2;
    body = json;
    headers = headers;
    message_id = "";
  };
  immediate = false;
  mandatory = false;
  routing_key = "DummyEvent2";
}

abbrev delivered : AmqpDelivery ℕ
delivered = record {
  body = json;
  message_id = "";
  headers = some headers;
  ack = λ multiple s. ok tt s;
  nack = λ multiple requeue s. ok tt s;
}

abbrev there : Run ℕ
there = record start { message = to_message background delivered }

amqp_event_arrives_example :
    (add_struct_name_to_metadata type_of (marshall_payload_to_json marshal_json on_others) start
      ≡ on_others (written "DummyEvent2" [] json start))
    × (msg.routing_key ≡ "DummyEvent2")
    × (handler_func router there
        ≡ handle_with_payload dummy on_event
            (record there { message = record (there.message) { payload = event_2 } }))
unfolding new_amqp_publisher apply_options check_defaults demo_router new_router add_handler
    add_middleware handle add_default_handler new_chain add get_type_name marshal routing_key_fn
    metadata_as_headers insert lookup
amqp_event_arrives_example =
    amqp_event_arrives type_of marshal_json sprint unmarshal unmarshal dummy dummy on_event on_event
      on_others on_others channel "demo" config router start (written "DummyEvent2" [] json start)
      there "DummyEvent2" [] json msg background delivered refl refl refl refl refl refl refl refl
      refl refl
