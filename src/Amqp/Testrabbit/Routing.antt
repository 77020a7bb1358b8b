-- ===== src/Amqp/Testrabbit/Routing.antt =====
-- DirectRoutingExchange of amqp/testrabbit/local.go: an exchange with a queue for each routing key.
pub mod Cleaning
use Prim.Native.String.{◌++◌}
use expedit.Prelude.{ℕ, String, false, none, List, [], ◌∷◌, Map, lookup, insert}
use expedit.Go.Value.{new}
use expedit.Amqp.Headers.{Table}
use expedit.Amqp.Testrabbit.{Action, pure, ◌>>=◌, ◌>>◌, call, Channel, joined, joined3}
use expedit.Amqp.Testrabbit.Waiting.{wait_for_all, declare_bound}
use expedit.Amqp.Testrabbit.Exchange.{
  declare_exchange, publish_bytes as publish_to, consume_found, delete_mapped, queues_of,
}

pub record DirectRoutingExchange (W D : Type 0) : Type 0 where
  pub channel : Channel W D
  pub exchange_name : String
  pub routing_to_queue : Map String

module _ {W D : Type 0} where
  unfoldable pub publish_bytes :
      DirectRoutingExchange W D → List ℕ → Table → String → Action W (Unit {0})
  unfolding publish_to
  publish_bytes d body attrs route = publish_to d.channel d.exchange_name body attrs route

  unfoldable pub delete : DirectRoutingExchange W D → Action W (Unit {0})
  unfolding delete_mapped
  delete d = delete_mapped d.channel d.exchange_name d.routing_to_queue

  unfoldable pub consume : DirectRoutingExchange W D → String → Action W D
  unfolding consume_found lookup
  consume d route =
      consume_found d.channel (λ err. err) (new ("no queue for route " ++ route))
        (lookup route d.routing_to_queue)

module _ {W D : Type 0} (show_duration : ℕ → String) (channel : Channel W D) (random_part : String)
    (exchange_name : String) where
  abbrev description : String → String → String → String
  description full_exchange_name key queue =
      "binding queue "
      ++ (queue ++ (" to exchange " ++ (full_exchange_name ++ (" with key " ++ key))))

  -- The loop over the routing keys.
  unfoldable pub declare_routes : String → List String → Map String → Action W (Map String)
  unfolding declare_bound insert
  declare_routes full_exchange_name [] mapping = pure mapping
  declare_routes full_exchange_name (key ∷ keys) mapping = do
    queue ←
        declare_bound channel (joined3 exchange_name key random_part)
          (λ queue. call (channel.queue_bind queue key full_exchange_name false none))
          (description full_exchange_name key)
    declare_routes full_exchange_name keys (insert key queue mapping)

  unfoldable pub create_direct_routing_exchange : List String → Action W (DirectRoutingExchange W D)
  unfolding declare_exchange declare_routes wait_for_all
  create_direct_routing_exchange routing_keys =
      let full_exchange_name = joined exchange_name random_part in
      do
        declare_exchange channel full_exchange_name "direct"
        mapping ← declare_routes full_exchange_name routing_keys []
        wait_for_all show_duration channel (queues_of mapping)
        pure (record {
          channel = channel;
          exchange_name = full_exchange_name;
          routing_to_queue = mapping;
        })
