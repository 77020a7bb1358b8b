-- ===== src/Tests/Amqp.antt =====
-- AMQP publishers and JSON payloads at concrete inputs.
use expedit.Prelude.{ℕ, Option, some, List, [], ◌∷◌, ◌⊎◌, inl, inr}
use expedit.Go.Value.{nil, Value, str, Error, new}
use expedit.Message.{Message}
use expedit.Go.Context.{background}
use expedit.Handler.{Run, ok, failed, Handler}
use expedit.Amqp.Publisher.{DefaultMessageOptions, Channel, RoutingKeyFunc, constant_routing_key}
use expedit.Publisher.Destinations.{constant_fn, RoutingFunc}

abbrev channel : Channel ℕ
channel = record { publish = λ exchange key mandatory immediate p s. ok tt s; close = λ s. ok tt s }

abbrev defaults : DefaultMessageOptions
defaults = record { content_type = "application/json"; priority = 4; delivery_mode = 2 }

abbrev routing : Option (RoutingFunc ℕ)
routing = some (constant_fn "orders")

abbrev key : Option (RoutingKeyFunc ℕ)
key = some (constant_routing_key "new")

-- A JSON of one text only.
abbrev marshal : Value → Error ⊎ List ℕ
marshal (str t) = inr (34 ∷ 34 ∷ [])
marshal v = inl (new "unsupported type")

abbrev unmarshal : List ℕ → Error ⊎ Value
unmarshal b = inr (str "")

abbrev state : Run ℕ
state = record {
  message = record { id = "1"; metadata = some []; payload = str ""; ctx = background };
  world = 0;
  now = 0;
  next_scope = 0;
  cancelled = [];
}

abbrev handler : Handler ℕ
handler s = failed (new "boom") (record s { world = 5 })

abbrev tagged : Message
tagged = record {
  id = "2";
  metadata = some (("user", str "ann") ∷ ("x-trace", str "7") ∷ []);
  payload = nil;
  ctx = background;
}
