-- ===== src/Tests/Testrabbit.antt =====
-- Queues and exchanges for tests, at concrete inputs.
use expedit.Prelude.{
  ℕ, suc, ◌+◌, ◌*◌, ◌-◌, ◌≡◌, refl, sym, ap, String, false, some, List, [], ◌∷◌, ◌++◌, inl, inr,
  insert, ltb, if◌then◌else◌, arith,
}
use mathlib.Core.List.{Memᴰ}
use expedit.Go.Value.{new, str, pos}
use expedit.Go.Number.{digit, digits, format_nat}
use expedit.Amqp.Testrabbit.{Env, left, Outcome, failing, Action, Op, Channel, millisecond}
use expedit.Amqp.Testrabbit.Waiting.{
  poll, attempts, retry_operation, wait_for_queue_ready, wait_for_all, declare_bound,
}
use expedit.Amqp.Testrabbit.Exchange.{declare_exchange}
use expedit.Amqp.Testrabbit.Requests.{Request, declared, exchange_declared, log_of, noting}
use expedit.Amqp.Testrabbit.Requests.Giving.{KeepsNames}
use expedit.Amqp.Testrabbit.Waiting.{not_ready_error, retries_error}
use expedit.Amqp.Testrabbit.Waiting.Deadline.{Ends, wait_for_queue_ready-Ends}
use expedit.Amqp.Testrabbit.Waiting.Attempts.{
  Tries, retry_operation-Tries, retry_operation-duration,
}
use expedit.Amqp.Testrabbit.Topic.Mapping.{queue_at}
use expedit.Amqp.Testrabbit.Topic.Leaking.{Deletes, topic_leaks}
use expedit.Amqp.Testrabbit.Routing.Cleaning.{declarations, Reaches, routing_cleans_up}
use expedit.Amqp.Testrabbit.HeaderMatching.{HeaderBinding}
use expedit.Amqp.Testrabbit.Requests.Logging.{Log}
use expedit.Amqp.Testrabbit.Topic.{
  TopicExchange, declare_patterns, create_topic_exchange, pattern_queue,
}
use expedit.Amqp.Testrabbit.Routing.{
  DirectRoutingExchange, declare_routes, create_direct_routing_exchange,
}

-- A broker that does what it is asked to do, in a millisecond. Queues are ready from that time on.
abbrev answer : {A : Type 0} → A → Op ℕ A
answer a now w = record { result = inr a; world = suc w; took = millisecond }

abbrev broker : ℕ → Channel ℕ ℕ
broker ready = record {
  queue_declare = λ q a b c d. answer q;
  queue_declare_passive = λ q a b c d now w. record {
    result = if ltb now ready then inl (new "not found") else inr q;
    world = suc w;
    took = millisecond;
  };
  queue_bind = λ q k x a args. answer tt;
  queue_delete = λ q a b c. answer 0;
  exchange_declare = λ x k a b c d. answer tt;
  exchange_delete = λ x a b. answer tt;
  publish = λ x k a b p. answer tt;
  consume = λ ctx q c a b d n. answer 0;
}

abbrev shown : ℕ → String
shown d = "2s"

abbrev start : Env (Log ℕ)
start = record { world = (0, []); now = 0; warnings = [] }

KeepsNames-broker : KeepsNames (broker 0)
KeepsNames-broker q x now w ne h = cc

-- The pattern "a" stands twice: its first queue is declared and not deleted.
abbrev topic : TopicExchange (Log ℕ) ℕ
topic = record {
  channel = noting (broker 0);
  exchange_name = "events_r";
  pattern_to_queue = ("a", "events_pattern2_r") ∷ ("b", "events_pattern1_r") ∷ [];
}

abbrev behind_topic : Env (Log ℕ)
behind_topic = record {
  world = (
    12,
    exchange_declared "events_r"
        ∷ declared "events_pattern0_r"
        ∷ declared "events_pattern1_r"
        ∷ declared "events_pattern2_r"
        ∷ [],
  );
  now = 12 * millisecond;
  warnings = [];
}

topic_leaks_example :
    (rs : List Request) × (log_of behind_topic ≡ [] ++ rs)
    × Memᴰ (declared (queue_at "events" "r" 0)) rs
    × Deletes shown
        (broker 0)
        "r"
        "events"
        (queue_at "events" "r" 0)
        "a"
        ("b" ∷ "a" ∷ [])
        topic
        behind_topic
unfolding create_topic_exchange declare_patterns declare_exchange declare_bound retry_operation
    attempts wait_for_all wait_for_queue_ready poll noting insert pattern_queue format_nat digits
    digit
topic_leaks_example =
    topic_leaks shown (broker 0) "r" "events" [] "a" ("b" ∷ "a" ∷ []) start behind_topic
      behind_topic topic KeepsNames-broker refl

abbrev routing : DirectRoutingExchange (Log ℕ) ℕ
routing = record {
  channel = noting (broker 0);
  exchange_name = "events_r";
  routing_to_queue = ("a", "events_a_r") ∷ ("b", "events_b_r") ∷ [];
}

abbrev behind_routing : Env (Log ℕ)
behind_routing = record {
  world = (9, exchange_declared "events_r" ∷ declared "events_a_r" ∷ declared "events_b_r" ∷ []);
  now = 9 * millisecond;
  warnings = [];
}

routing_cleans_up_example :
    (log_of behind_routing ≡ [] ++ declarations shown (broker 0) "r" "events" ("a" ∷ "b" ∷ []))
    × Reaches shown (broker 0) "r" "events" "b" routing behind_routing
unfolding create_direct_routing_exchange declare_routes declare_exchange declare_bound
    retry_operation attempts wait_for_all wait_for_queue_ready poll noting insert
routing_cleans_up_example =
    routing_cleans_up shown (broker 0) "r" "events" ("a" ∷ "b" ∷ []) "b" start behind_routing
      behind_routing routing KeepsNames-broker refl (Memᴰ.tail (Memᴰ.head refl))

abbrev idle : Env ℕ
idle = record { world = 0; now = 0; warnings = [] }

-- The queue is ready behind 30 milliseconds.
wait_for_queue_ready-Ends_example :
    Ends
      ((broker (30 * millisecond)).queue_declare_passive "q" false false false false)
      (not_ready_error "q" "2s")
      0
      (100 * millisecond)
      millisecond
      (wait_for_queue_ready shown (broker (30 * millisecond)) "q" (100 * millisecond) idle)
wait_for_queue_ready-Ends_example =
    wait_for_queue_ready-Ends shown (broker (30 * millisecond)) "q" (100 * millisecond) millisecond
      idle (λ now w. omega arith)

-- It fails, and takes no time.
abbrev refused : Action ℕ (Unit {0})
refused e = failing (new "no") (record e { world = suc e.world })

abbrev behind_refused : Env ℕ
behind_refused = record { world = 3; now = 150 * millisecond; warnings = [] }

retry_operation-Tries_example :
    Tries refused 3
      (retries_error (pos 3) "binding")
      idle
      (retry_operation refused (pos 3) "binding" idle)
retry_operation-Tries_example = retry_operation-Tries refused (pos 3) "binding" idle

retry_operation-duration_example : 150 * millisecond ≡ 0 + 3 * 0 + 25 * millisecond * (3 * (3 - 1))
unfolding retry_operation attempts
retry_operation-duration_example =
    retry_operation-duration refused (pos 3) "binding" 0 idle behind_refused
      (retries_error (pos 3) "binding" (some (new "no")))
      (λ u v x h.
        let same : v.now ≡ u.now = ap (λ (o : Outcome ℕ (Unit {0})). (left o).now) (sym h) in
        omega arith)
      refl

abbrev binding : HeaderBinding
binding = record { binding_key = "k"; headers = ("x-match", str "any") ∷ []; match_type = "all" }
