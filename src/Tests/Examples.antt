-- ===== src/Tests/Examples.antt =====
-- The events of the example programs, at concrete inputs.
use expedit.Prelude.{
  ℕ, String, Bool, true, false, Option, none, some, List, [], ◌∷◌, ◌≡◌, refl, ◌⊎◌, inr, Map, lookup,
  insert, collect, ◌==◌, if◌then◌else◌,
}
use expedit.Go.Value.{Value, str, bytes, other, pos, Error}
use expedit.Go.Context.{Context, background}
use expedit.Handler.{Run, ok, Handler, GoType, handle_with_payload}
use expedit.Middleware.Chain.{new_chain, add}
use expedit.Middleware.Errors.{Callback}
use expedit.Prometheus.{Vec, Counter, Histogram}
use expedit.Publisher.Destinations.{Config, constant_fn}
use expedit.Subscriber.Router.{
  SubscriptionRouter, handler_func, new_router, route_from_metadata_key, add_handler,
  add_middleware, handle, add_default_handler,
}
use expedit.Redis.Values.{
  MessageWrapper, metadata_with_prefix, prefix_metadata_extractor, non_prefix_payload_extractor,
}
use expedit.Redis.Json.{marshall_payload_to_json_map, unmarshall_map_payload_from_json}
use expedit.Redis.Publisher.{
  XAddArgs, marshal, stream_publisher, new_redis_publisher, apply_options, with_metadata_marshaller,
  write_all,
}
use expedit.Redis.Subscriber as Redis
use expedit.Redis.Subscriber.{
  RedisSubscriber, new_redis_subscriber, with_start_id, with_metadata_extractor,
  with_payload_extractor, checked, four_fifths, default_options, seconds,
}
use expedit.Redis.Subscriber.Receiving.{to_message}
use expedit.Examples.{TypeInfo, Registry, get_type_name, add_struct_name_to_metadata}
use expedit.Examples.Naming.{stamped}
use expedit.Examples.Redis.{demo_router}
use expedit.Examples.Redis.Arrival.{IsCarried, event_arrives}

abbrev event_1 : Value
event_1 = other "DummyEvent1" 7

abbrev type_of : Value → Option TypeInfo
type_of v = some (record { is_pointer = false; name = "DummyEvent1"; elem_name = "" })

abbrev json : List ℕ
json = 123 ∷ 125 ∷ []

abbrev marshal_json : Value → Error ⊎ List ℕ
marshal_json v = inr json

abbrev unmarshal : List ℕ → Error ⊎ Value
unmarshal b = inr event_1

abbrev sprint : Value → String
sprint (str s) = s
sprint v = ""

abbrev utf8 : String → List ℕ
utf8 s = json

abbrev type_name : Value → String
type_name v = "string"

abbrev dummy_1 : GoType ℕ
dummy_1 = record { name = "DummyEvent1"; is_interface = false; assert = λ v. some 7 }

abbrev on_event : ℕ → Handler ℕ
on_event n s = ok tt (record s { world = n })

abbrev on_others : Handler ℕ
on_others s = ok tt s

abbrev client : Context → XAddArgs → Handler ℕ
client ctx args s = ok tt s

abbrev config : Config ℕ XAddArgs
config = record {
  routing_func = constant_fn "demo";
  message_marshaller =
      marshal
        (record {
          id_generator = none;
          maxlen = pos 0;
          approx = false;
          metadata_marshaller = some (metadata_with_prefix "metadata_");
        })
        (marshall_payload_to_json_map marshal_json "json");
  get_destination_publisher = λ dest s. ok (stream_publisher client dest) s;
}

abbrev subscriber : RedisSubscriber ℕ
subscriber = record {
  stream = "demo";
  options = record default_options {
    start_id = "0";
    metadata_extractor = some (prefix_metadata_extractor "metadata_");
    payload_extractor = some (non_prefix_payload_extractor "metadata_");
  };
  processing_timeout = seconds 240;
}

abbrev router : SubscriptionRouter ℕ
router = record {
  generator = route_from_metadata_key sprint "event_type";
  builders =
      record {
        handler = some (handle_with_payload dummy_1 on_event);
        mc = record {
          middlewares = unmarshall_map_payload_from_json utf8 type_name unmarshal "json" ∷ [];
        };
      }
      ∷ [];
  routes_by_type = ("DummyEvent1", 0) ∷ [];
  default_route = some on_others;
  ack_on_unknown_route = false;
}

abbrev start : Run ℕ
start = record {
  message = record { id = ""; metadata = some []; payload = event_1; ctx = background };
  world = 0;
  now = 0;
  next_scope = 0;
  cancelled = [];
}

abbrev added : Map Value
added = ("metadata_event_type", str "DummyEvent1") ∷ ("json", bytes json) ∷ []

abbrev got : Map Value
got = ("metadata_event_type", str "DummyEvent1") ∷ ("json", str "{}") ∷ []

abbrev args : XAddArgs
args = record { stream = ""; values = added; max_len = pos 0; approx = false; id = "" }

abbrev wrapper : MessageWrapper
wrapper = record { stream = "demo"; consumer_group = ""; msg = record { id = "1-0"; values = got } }

abbrev there : Run ℕ
there = record start { message = to_message subscriber background wrapper }

IsCarried-got : IsCarried utf8 added got
unfolding lookup
IsCarried-got = record {
  text = λ key text h. text_at ("metadata_event_type" == key) ("json" == key) text h;
  body = λ key b h. body_at ("metadata_event_type" == key) ("json" == key) b h;
  once = (refl, (refl, tt));
}
  where
    text_at :
        (x y : Bool) (text : String)
        → (if x then some (str "DummyEvent1") else if y then some (bytes json) else none)
          ≡ some (str text)
        → (if x then some (str "DummyEvent1") else if y then some (str "{}") else none)
          ≡ some (str text)
    text_at true y text h = h
    text_at false true text h = cc
    text_at false false text h = cc

    body_at :
        (x y : Bool) (b : List ℕ)
        → (if x then some (str "DummyEvent1") else if y then some (bytes json) else none)
          ≡ some (bytes b)
        → (text : String) × ((if x
              then some (str "DummyEvent1")
              else if y
              then some (str "{}")
              else none)
            ≡ some (str text))
          × (utf8 text ≡ b)
    body_at true y b h = cc
    body_at false true b h = ("{}", refl, cc)
    body_at false false b h = cc

event_arrives_example :
    (add_struct_name_to_metadata type_of on_others start
      ≡ on_others (stamped "DummyEvent1" [] start))
    × (handler_func router there
        ≡ handle_with_payload dummy_1 on_event
            (record there { message = record (there.message) { payload = event_1 } }))
unfolding new_redis_publisher apply_options with_metadata_marshaller new_redis_subscriber
    Redis.apply_options with_start_id with_metadata_extractor with_payload_extractor checked
    four_fifths demo_router new_router add_handler add_middleware handle add_default_handler
    new_chain add get_type_name marshal metadata_with_prefix marshall_payload_to_json_map write_all
    collect insert
event_arrives_example =
    event_arrives type_of marshal_json sprint utf8 type_name unmarshal dummy_1 on_event on_others
      on_others client "demo" config subscriber router start (stamped "DummyEvent1" [] start) there
      "DummyEvent1" [] json args background wrapper refl refl refl refl refl tt refl refl refl refl
      IsCarried-got refl

abbrev count : Vec ℕ (Counter ℕ)
count = record { with_labels = λ labels s. ok (record { inc = λ t. t }) s }

abbrev duration : Vec ℕ (Histogram ℕ)
duration = record { with_labels = λ labels s. ok (record { observe = λ n t. t }) s }

abbrev registry : Registry ℕ
registry = record {
  counter_vec = λ namespace subsystem name labels s. ok count s;
  histogram_vec = λ namespace subsystem name labels s. ok duration s;
}

abbrev report : Callback ℕ
report e s = ok tt s

abbrev publish_of : Config ℕ XAddArgs → Handler ℕ
publish_of c = on_others
