-- ===== src/Amqp/Testrabbit/HeaderMatching.antt =====
-- HeadersExchange of amqp/testrabbit/local.go: an exchange with a queue for each match of headers.
pub mod Arguments
use Prim.Native.String.{◌++◌}
use expedit.Prelude.{ℕ, String, false, some, List, [], ◌∷◌, Map, lookup, insert, collect}
use expedit.Go.Value.{Value, str, new}
use expedit.Amqp.Headers.{Table}
use expedit.Amqp.Testrabbit.{Action, pure, ◌>>=◌, ◌>>◌, call, Channel, joined, joined3}
use expedit.Amqp.Testrabbit.Waiting.{wait_for_all, declare_bound}
use expedit.Amqp.Testrabbit.Exchange.{
  declare_exchange, publish_bytes as publish_to, consume_found, delete_mapped, queues_of,
}

pub record HeadersExchange (W D : Type 0) : Type 0 where
  pub channel : Channel W D
  pub exchange_name : String
  pub headers_to_queue : Map String
  pub header_bindings : Map Table

pub record HeaderBinding : Type 0 where
  pub binding_key : String
  pub headers : Table
  pub match_type : String  -- "all" or "any"

module _ {W D : Type 0} where
  unfoldable pub publish_bytes : HeadersExchange W D → List ℕ → Table → Action W (Unit {0})
  unfolding publish_to
  publish_bytes d body headers = publish_to d.channel d.exchange_name body headers ""

  unfoldable pub delete : HeadersExchange W D → Action W (Unit {0})
  unfolding delete_mapped
  delete d = delete_mapped d.channel d.exchange_name d.headers_to_queue

  unfoldable pub consume : HeadersExchange W D → String → Action W D
  unfolding consume_found lookup
  consume d binding_key =
      consume_found d.channel (λ err. err) (new ("no queue for binding key " ++ binding_key))
        (lookup binding_key d.headers_to_queue)

-- The arguments of a binding; the headers are written behind `x-match`.
unfoldable pub binding_args : HeaderBinding → Table
unfolding collect insert
binding_args binding =
    collect (λ k v. some (k, v)) binding.headers (insert "x-match" (str binding.match_type) [])

module _ {W D : Type 0} (show_duration : ℕ → String) (channel : Channel W D) (random_part : String)
    (exchange_name : String) where
  abbrev description : String → String → String → String
  description full_exchange_name binding_key queue =
      "binding queue "
      ++ (queue
          ++ (" to headers exchange " ++ (full_exchange_name ++ (" with binding " ++ binding_key))))

  -- The loop over the bindings.
  unfoldable pub declare_bindings :
      String → List HeaderBinding → Map String → Map Table → Action W (Map String × Map Table)
  unfolding declare_bound insert binding_args
  declare_bindings full_exchange_name [] headers_to_queue header_bindings =
      pure (headers_to_queue, header_bindings)
  declare_bindings full_exchange_name (binding ∷ bindings) headers_to_queue header_bindings = do
    queue ←
        declare_bound channel (joined3 exchange_name binding.binding_key random_part)
          (λ queue.
            call
              (channel.queue_bind queue "" full_exchange_name false (some (binding_args binding))))
          (description full_exchange_name binding.binding_key)
    declare_bindings full_exchange_name bindings (insert binding.binding_key queue headers_to_queue)
        (insert binding.binding_key (binding_args binding) header_bindings)

  unfoldable pub create_headers_exchange : List HeaderBinding → Action W (HeadersExchange W D)
  unfolding declare_exchange declare_bindings wait_for_all
  create_headers_exchange bindings =
      let full_exchange_name = joined exchange_name random_part in
      do
        declare_exchange channel full_exchange_name "headers"
        declared ← declare_bindings full_exchange_name bindings [] []
        wait_for_all show_duration channel (queues_of declared.0)
        pure (record {
          channel = channel;
          exchange_name = full_exchange_name;
          headers_to_queue = declared.0;
          header_bindings = declared.1;
        })
