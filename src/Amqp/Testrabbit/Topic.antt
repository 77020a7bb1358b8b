-- ===== src/Amqp/Testrabbit/Topic.antt =====
-- TopicExchange of amqp/testrabbit/local.go: an exchange with a queue for each pattern.
pub mod Mapping
pub mod Leaking
use Prim.Native.String.{◌++◌}
use expedit.Prelude.{ℕ, suc, String, false, none, List, [], ◌∷◌, Map, lookup, insert}
use expedit.Go.Value.{new, wrap}
use expedit.Go.Number.{format_nat}
use expedit.Amqp.Headers.{Table}
use expedit.Amqp.Testrabbit.{Action, pure, ◌>>=◌, ◌>>◌, call, Channel, joined}
use expedit.Amqp.Testrabbit.Waiting.{wait_for_all, declare_bound}
use expedit.Amqp.Testrabbit.Exchange.{
  declare_exchange, publish_bytes as publish_to, consume_found, delete_mapped, queues_of,
}

pub record TopicExchange (W D : Type 0) : Type 0 where
  pub channel : Channel W D
  pub exchange_name : String
  pub pattern_to_queue : Map String

module _ {W D : Type 0} where
  unfoldable pub publish_bytes : TopicExchange W D → List ℕ → Table → String → Action W (Unit {0})
  unfolding publish_to
  publish_bytes d body attrs routing_key =
      publish_to d.channel d.exchange_name body attrs routing_key

  unfoldable pub delete : TopicExchange W D → Action W (Unit {0})
  unfolding delete_mapped
  delete d = delete_mapped d.channel d.exchange_name d.pattern_to_queue

  unfoldable pub consume : TopicExchange W D → String → Action W D
  unfolding consume_found lookup
  consume d pattern =
      consume_found d.channel
        (wrap ("cannot consume queue pattern " ++ (pattern ++ (" [" ++ (d.exchange_name ++ "]")))))
        (new ("no queue for pattern " ++ pattern)) (lookup pattern d.pattern_to_queue)

-- The queue of the pattern at an index.
unfoldable pub pattern_queue : String → String → ℕ → String
unfolding format_nat
pattern_queue exchange_name random_part i =
    exchange_name ++ ("_pattern" ++ (format_nat i ++ ("_" ++ random_part)))

module _ {W D : Type 0} (show_duration : ℕ → String) (channel : Channel W D) (random_part : String)
    (exchange_name : String) where
  abbrev description : String → String → String → String
  description full_exchange_name pattern queue =
      "binding queue "
      ++ (queue ++ (" to topic exchange " ++ (full_exchange_name ++ (" with pattern " ++ pattern))))

  -- The loop over the patterns, from the one at index `i` on.
  unfoldable pub declare_patterns : String → ℕ → List String → Map String → Action W (Map String)
  unfolding declare_bound insert pattern_queue
  declare_patterns full_exchange_name i [] mapping = pure mapping
  declare_patterns full_exchange_name i (pattern ∷ patterns) mapping = do
    queue ←
        declare_bound channel (pattern_queue exchange_name random_part i)
          (λ queue. call (channel.queue_bind queue pattern full_exchange_name false none))
          (description full_exchange_name pattern)
    declare_patterns full_exchange_name (suc i) patterns (insert pattern queue mapping)

  unfoldable pub create_topic_exchange : List String → Action W (TopicExchange W D)
  unfolding declare_exchange declare_patterns wait_for_all
  create_topic_exchange patterns =
      let full_exchange_name = joined exchange_name random_part in
      do
        declare_exchange channel full_exchange_name "topic"
        mapping ← declare_patterns full_exchange_name 0 patterns []
        wait_for_all show_duration channel (queues_of mapping)
        pure (record {
          channel = channel;
          exchange_name = full_exchange_name;
          pattern_to_queue = mapping;
        })
