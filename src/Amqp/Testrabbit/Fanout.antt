-- ===== src/Amqp/Testrabbit/Fanout.antt =====
-- FanoutExchange of amqp/testrabbit/local.go: an exchange that copies to each of its queues.
use Prim.Native.String.{◌++◌ as ◌<>◌}
use expedit.Prelude.{
  ℕ, String, false, none, List, [], ◌∷◌, ◌++◌, Map, lookup, insert, ◌==◌, if◌then◌else◌,
}
use expedit.Go.Value.{new}
use expedit.Amqp.Headers.{Table}
use expedit.Amqp.Testrabbit.{
  Action, pure, ◌>>=◌, ◌>>◌, or_warn, queue_not_deleted, call, Channel, joined, joined3,
}
use expedit.Amqp.Testrabbit.Waiting.{wait_for_all, declare_bound}
use expedit.Amqp.Testrabbit.Exchange.{
  declare_exchange, publish_bytes as publish_to, consume_found, delete_exchange, queues_of,
}

pub record FanoutExchange (W D : Type 0) : Type 0 where
  pub channel : Channel W D
  pub exchange_name : String
  pub queues : List String
  pub logical_to_actual : Map String

module _ {W D : Type 0} where
  unfoldable pub publish_bytes : FanoutExchange W D → List ℕ → Table → Action W (Unit {0})
  unfolding publish_to
  publish_bytes d body attrs = publish_to d.channel d.exchange_name body attrs ""

  -- The loop over the queues.
  unfoldable pub delete_queues : Channel W D → List String → Action W (Unit {0})
  delete_queues channel [] = pure tt
  delete_queues channel (queue ∷ queues) =
      or_warn (queue_not_deleted queue) (call (channel.queue_delete queue false false false))
      >> delete_queues channel queues

  unfoldable pub delete : FanoutExchange W D → Action W (Unit {0})
  unfolding delete_queues delete_exchange
  delete d =
      if d.exchange_name == ""
      then pure tt
      else (delete_queues d.channel d.queues >> delete_exchange d.channel d.exchange_name)

  unfoldable pub consume : FanoutExchange W D → String → Action W D
  unfolding consume_found lookup
  consume d logical_queue_name =
      consume_found d.channel (λ err. err)
        (new ("no queue for logical name " <> logical_queue_name))
        (lookup logical_queue_name d.logical_to_actual)

module _ {W D : Type 0} (show_duration : ℕ → String) (channel : Channel W D) (random_part : String)
    (exchange_name : String) where
  abbrev description : String → String → String
  description full_exchange_name queue =
      "binding queue " <> (queue <> (" to fanout exchange " <> full_exchange_name))

  -- The loop over the logical names.
  unfoldable pub declare_logical :
      String → List String → List String → Map String → Action W (List String × Map String)
  unfolding declare_bound insert
  declare_logical full_exchange_name [] actual_queues logical_to_actual =
      pure (actual_queues, logical_to_actual)
  declare_logical full_exchange_name (name ∷ names) actual_queues logical_to_actual = do
    queue ←
        declare_bound channel (joined3 exchange_name name random_part)
          (λ queue. call (channel.queue_bind queue "" full_exchange_name false none))
          (description full_exchange_name)
    declare_logical full_exchange_name names (actual_queues ++ queue ∷ [])
        (insert name queue logical_to_actual)

  unfoldable pub create_fanout_exchange : List String → Action W (FanoutExchange W D)
  unfolding declare_exchange declare_logical wait_for_all
  create_fanout_exchange queues =
      let full_exchange_name = joined exchange_name random_part in
      do
        declare_exchange channel full_exchange_name "fanout"
        declared ← declare_logical full_exchange_name queues [] []
        wait_for_all show_duration channel (queues_of declared.1)
        pure (record {
          channel = channel;
          exchange_name = full_exchange_name;
          queues = declared.0;
          logical_to_actual = declared.1;
        })
