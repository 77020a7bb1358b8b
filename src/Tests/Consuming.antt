-- ===== src/Tests/Consuming.antt =====
-- Channels that are lost, and deliveries of an AMQP subscriber, at concrete inputs.
use expedit.Prelude.{◌≡◌, refl, true, false, none, List, [], ◌∷◌, arith}
use expedit.Go.Value.{new, nil}
use expedit.Go.Context.{background}
use expedit.Handler.{Run, ok, failed, Handler}
use expedit.Subscriber.Dispatcher.{handle}
use expedit.Subscriber.Dispatcher.Settlement.{log_of}
use expedit.Amqp.Connection.{default_retry_strategy, gone, over}
use expedit.Amqp.Channel.{
  System, ends, listen, lose, retry, delay, wake, opened, flag, close_channel, take, send, drain,
  go_on, consume, deliver, start, Reach, here, next, idle, listening, waiting, sleeping, consuming,
  lost,
}
use expedit.Amqp.Channel.Forwarding.{consume_forwards}
use expedit.Amqp.Channel.Leaking.{close_leaks}
use expedit.Amqp.Subscriber.{AmqpSubscriber, AmqpDelivery, delivery, default_options}
use expedit.Subscriber.Dispatcher.{Delivery}
use expedit.Handler.{final}
use expedit.Prelude.{◌⊎◌}
use expedit.Amqp.Subscriber.{Choice, done, arrived, closed}
use expedit.Amqp.Subscriber.Returning.{HasReturned, IsWaiting, receive_cases}
use expedit.Amqp.Subscriber.Settling.{Answer, acked, nacked, Logs, dispatcher, delivery_settled}

-- A message, then the channel is lost.
abbrev cut : System
cut = ends gone 0 (record start { watcher = waiting 0; pending = 7 ∷ []; delivered = 7 ∷ [] })

is_cut : Reach default_retry_strategy over start cut
is_cut = next (next (next here (listen refl refl)) (deliver 7 refl)) (lose 0 (omega arith) refl)

-- A new channel is opened, and the consumer waits to consume on it.
abbrev back : System
back = record cut {
  watcher = listening;
  current = 1;
  made = 2;
  attempts = 1;
  consumer = consuming;
  sent = 7 ∷ [];
  pending = [];
  retries = 1;
  consuming_on = 1;
}

is_back : Reach default_retry_strategy over start back
is_back =
    next
      (next
        (next
          (next
            (next
              (next
                (next
                  (next (next (next is_cut (retry refl refl)) (delay refl))
                    (wake (default_retry_strategy 0) refl))
                  (opened refl refl))
                (take 7 [] refl refl))
              (send 7 refl))
            (drain refl refl refl))
          (lost refl refl))
        (go_on refl refl))
      (consume (default_retry_strategy 0) refl)

consume_forwards_example :
    (back.delivered ≡ back.sent) × ((back.pending ≡ []) × (back.d_over ≡ true))
consume_forwards_example = consume_forwards {s = back} is_back

-- Close, while the goroutine waits for the retry delay.
abbrev left : System
left =
    record (ends over 0
      (record cut { closed = true; watcher = sleeping (default_retry_strategy 0) })) {
        closer = idle;
      }

is_left : Reach default_retry_strategy over start left
is_left =
    next (next (next (next is_cut (retry refl refl)) (delay refl)) (flag refl)) (close_channel refl)

close_leaks_example :
    (t : System) × Reach default_retry_strategy over start t
    × (t.watcher ≡ waiting t.current)
    × (t.shut t.current ≡ false)
    × (t.closed ≡ true)
    × (t.closer ≡ idle)
close_leaks_example = close_leaks {s = left} is_left refl refl tt

-- The broker's log is the world.
abbrev subscriber : AmqpSubscriber (List Answer)
subscriber = record {
  queue = "orders";
  options = record default_options { no_requeue_on_nack = true };
}

abbrev arriving : AmqpDelivery (List Answer)
arriving = record {
  body = 123 ∷ 125 ∷ [];
  message_id = "7";
  headers = none;
  ack = λ m s. ok tt (record s { world = acked m ∷ s.world });
  nack = λ m r s. failed (new "closed") (record s { world = nacked m r ∷ s.world });
}

abbrev refuses : Handler (List Answer)
refuses s = failed (new "boom") s

abbrev before : Run (List Answer)
before = record {
  message = record { id = ""; metadata = none; payload = nil; ctx = background };
  world = [];
  now = 100;
  next_scope = 1;
  cancelled = [];
}

logs : Logs (λ w. w) subscriber refuses arriving
logs = record {
  by_handler = λ s. refl;
  by_ack = λ m s. refl;
  by_nack = λ m r s. refl;
  ack_returns = λ m s. refl;
  nack_returns = λ m r s. refl;
  by_ack_error = λ e s. refl;
  by_nack_error = λ e s. refl;
  ack_error_returns = λ e s. refl;
  nack_error_returns = λ e s. refl;
}

delivery_settled_example :
    log_of
      (λ w. w)
      (handle (dispatcher subscriber refuses) (delivery subscriber background arriving) before)
    ≡ nacked false false ∷ []
delivery_settled_example =
    delivery_settled (λ w. w) subscriber refuses background arriving logs before

-- A delivery arrives, then the deliveries are closed while ctx is not done.
abbrev cases : List (Choice (List Answer))
cases = arrived arriving ∷ closed ∷ done ∷ []

abbrev handling : Delivery (List Answer) → Run (List Answer) → Run (List Answer)
handling d s = final (handle (dispatcher subscriber refuses) d s)

receive_cases_example :
    HasReturned subscriber handling background (λ s. s) cases before
    ⊎ IsWaiting subscriber handling background (λ s. s) cases before
receive_cases_example = receive_cases subscriber handling background (λ s. s) cases before
