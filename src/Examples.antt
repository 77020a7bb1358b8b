-- ===== src/Examples.antt =====
-- The example programs: what they put together from the library. The functions `main` are left out.
-- What is here is examples/types.go, examples/middleware/circuitbreaker.go, and what the examples
-- for redis and amqp have in common.
pub mod Naming
pub mod Redis
pub mod Amqp
pub mod Google
use Prim.Native.String.{◌++◌}
use expedit.Prelude.{
  String, Bool, true, false, Option, none, some, List, [], ◌∷◌, Map, if◌then◌else◌, is_some, map,
}
use expedit.Go.Value.{Value, nil, str, Error}
use expedit.Message.{Message, with_metadata}
use expedit.Handler.{Run, Ret, ok, failed, panicked, Call, Handler, must}
use expedit.Middleware.Chain.{Middleware}
use expedit.Middleware.Errors.{Callback, on_error, convert_panic_to_error}
use expedit.Prometheus.{
  Counter, Histogram, Vec, PrometheusLabelsProducer, prometheus_metrics_count_vec,
  prometheus_metrics_duration_vec,
}
use expedit.Publisher.Engine.{PublishingEngine, add_middleware as add_to_publisher}
use expedit.Subscriber.Engine.{SubscriptionEngine, add_middleware as add_to_subscriber}

-- The default registerer of prometheus: a new metric by its namespace, its subsystem, its name and its
-- labels, if it can be registered.
pub record Registry (W : Type 0) : Type 0 where
  pub counter_vec : String → String → String → List String → Call W (Vec W (Counter W))
  pub histogram_vec : String → String → String → List String → Call W (Vec W (Histogram W))

module _ {W : Type 0} (registry : Registry W) (labels : List String) where
  unfoldable pub create_prom_outgoing_count : Call W (Vec W (Counter W))
  create_prom_outgoing_count s =
      must (registry.counter_vec "test" "test" "outgoing_test_counter" labels s)

  unfoldable pub create_prom_outgoing_duration : Call W (Vec W (Histogram W))
  create_prom_outgoing_duration s =
      must (registry.histogram_vec "test" "test" "outgoing_test_duration" labels s)

  unfoldable pub create_prom_incoming_count : Call W (Vec W (Counter W))
  create_prom_incoming_count s =
      must (registry.counter_vec "test" "test" "incoming_test_counter" labels s)

  unfoldable pub create_prom_incoming_duration : Call W (Vec W (Histogram W))
  create_prom_incoming_duration s =
      must (registry.histogram_vec "test" "test" "incoming_test_duration" labels s)

-- What reflect says of the type of a value; the nil interface has no type.
pub record TypeInfo : Type 0 where
  pub is_pointer : Bool
  pub name : String
  pub elem_name : String  -- of the type that a pointer points to

-- `none` is the panic for the nil interface.
unfoldable pub get_type_name : Option TypeInfo → Option String
get_type_name none = none
get_type_name (some t) = some (if t.is_pointer then "*" ++ t.elem_name else t.name)

abbrev pub nil_dereference : Value
nil_dereference = str "invalid memory address or nil pointer dereference"

abbrev pub nil_map : Value
nil_map = str "assignment to entry in nil map"

abbrev pub put_message : {W : Type 0} → Handler W → Run W → Option Message → Ret W (Unit {0})
put_message next s none = panicked nil_map s
put_message next s (some m) = next (record s { message = m })

abbrev pub named : {W : Type 0} → Handler W → Option String → Handler W
named next none s = panicked nil_dereference s
named next (some name) s = put_message next s (with_metadata s.message "event_type" (str name))

-- `type_of` is reflect.TypeOf.
unfoldable pub add_struct_name_to_metadata : {W : Type 0} → (Value → Option TypeInfo) → Middleware W
unfolding get_type_name
add_struct_name_to_metadata type_of next s =
    named next (get_type_name (type_of s.message.payload)) s

-- `"error": strconv.FormatBool(err != nil)`, beside the name of the side.
abbrev pub format_bool : Bool → String
format_bool true = "true"
format_bool false = "false"

abbrev pub labels_producer : String → String → PrometheusLabelsProducer
labels_producer side name msg e = (side, name) ∷ ("error", format_bool (is_some e)) ∷ []

-- The calls of AddMiddleware on an engine, the first first; `none` is the panic of one of them.
abbrev pub add_each : {E M : Type 0} → (M → E → Option E) → List M → E → Option E
add_each add [] e = some e
add_each add (m ∷ ms) e = elim (add m e) [ none ↦ none | some e' ↦ add_each add ms e' ]

abbrev pub or_late : {W E : Type 0} → String → Option E → Call W E
or_late text none s = panicked (str text) s
or_late text (some e) s = ok e s

-- What the examples put around each side: the metrics, the report of errors, and the end of panics.
abbrev pub observing :
    {W : Type 0}
    → PrometheusLabelsProducer
    → Callback W
    → (Value → String)
    → Vec W (Counter W)
    → Vec W (Histogram W)
    → List (Middleware W)
observing labels report sprint count duration =
    prometheus_metrics_count_vec count labels
    ∷ prometheus_metrics_duration_vec duration labels
    ∷ on_error report
    ∷ convert_panic_to_error sprint
    ∷ []

-- examples/middleware/circuitbreaker.go: `execute` is Execute of gobreaker's CircuitBreaker.
unfoldable pub circuit_breaker : {W : Type 0} → (Handler W → Handler W) → Middleware W
circuit_breaker execute next s = execute next s
