-- ===== src/Amqp/Testrabbit/Direct.antt =====
-- DirectQueue of amqp/testrabbit/local.go: a queue behind the built-in exchange.
use expedit.Prelude.{ℕ, String, true, false, List, ◌==◌, if◌then◌else◌}
use expedit.Go.Context.{background}
use expedit.Amqp.Headers.{Table}
use expedit.Amqp.Testrabbit.{
  Action, pure, ◌>>=◌, ◌>>◌, or_panic, or_warn, queue_not_deleted, not_published, not_ready, call,
  Channel, joined, text_publishing, two_seconds,
}
use expedit.Amqp.Testrabbit.Waiting.{wait_for_queue_ready}

pub record DirectQueue (W D : Type 0) : Type 0 where
  pub channel : Channel W D
  pub queue_name : String

module _ {W D : Type 0} where
  unfoldable pub delete : DirectQueue W D → Action W (Unit {0})
  delete d =
      if d.queue_name == ""
      then pure tt
      else or_warn (queue_not_deleted d.queue_name)
          (call (d.channel.queue_delete d.queue_name false false false))

  unfoldable pub publish_bytes : DirectQueue W D → List ℕ → Table → Action W (Unit {0})
  publish_bytes d body attrs =
      or_warn (not_published d.queue_name)
        (call (d.channel.publish "" d.queue_name false false (text_publishing body attrs)))

  unfoldable pub consume : DirectQueue W D → Action W D
  consume d = or_panic (call (d.channel.consume background d.queue_name "" false true false false))

  unfoldable pub create_direct_exchange_queue :
      (ℕ → String) → Channel W D → String → String → Action W (DirectQueue W D)
  unfolding wait_for_queue_ready
  create_direct_exchange_queue show_duration channel random_part queue_name = do
    queue ←
        or_panic
          (call (channel.queue_declare (joined queue_name random_part) true false false false))
    or_warn not_ready (wait_for_queue_ready show_duration channel queue two_seconds)
    pure (record { channel = channel; queue_name = queue })
