-- ===== src/Amqp/Testrabbit/Exchange.antt =====
-- amqp/testrabbit/local.go: what the four kinds of exchange do in the same way.
use expedit.Prelude.{
  ℕ, String, true, false, Option, none, some, List, [], ◌∷◌, Map, map, ◌==◌, if◌then◌else◌,
}
use expedit.Go.Value.{Error}
use expedit.Go.Context.{background}
use expedit.Amqp.Headers.{Table}
use expedit.Amqp.Testrabbit.{
  Action, panicking, pure, ◌>>◌, or_panic, or_panic_with, or_warn, routed_queue_not_deleted,
  exchange_not_deleted, call, Channel, text_publishing,
}

module _ {W D : Type 0} (channel : Channel W D) where
  unfoldable pub declare_exchange : String → String → Action W (Unit {0})
  declare_exchange exchange kind =
      or_panic (call (channel.exchange_declare exchange kind true false false false))

  unfoldable pub publish_bytes : String → List ℕ → Table → String → Action W (Unit {0})
  publish_bytes exchange body attrs key =
      or_panic (call (channel.publish exchange key false false (text_publishing body attrs)))

  -- The queue that a map names for a key; `f` is what is made of the error of the consume.
  unfoldable pub consume_found : (Error → Error) → Error → Option String → Action W D
  consume_found f missing none e = panicking missing e
  consume_found f missing (some queue) e =
      or_panic_with f (call (channel.consume background queue "" false true false false)) e

  -- The loop of Delete over a map from keys to queues.
  unfoldable pub delete_routed : Map String → Action W (Unit {0})
  delete_routed [] = pure tt
  delete_routed (entry ∷ rest) =
      or_warn (routed_queue_not_deleted entry.1 entry.0)
        (call (channel.queue_delete entry.1 false false false))
      >> delete_routed rest

  unfoldable pub delete_exchange : String → Action W (Unit {0})
  delete_exchange exchange =
      or_warn (exchange_not_deleted exchange) (call (channel.exchange_delete exchange false false))

  -- Delete of an exchange with such a map.
  unfoldable pub delete_mapped : String → Map String → Action W (Unit {0})
  unfolding delete_routed delete_exchange
  delete_mapped exchange queues =
      if exchange == "" then pure tt else (delete_routed queues >> delete_exchange exchange)

-- The queues of such a map.
abbrev pub queues_of : Map String → List String
queues_of m = map (λ entry. entry.1) m
