-- ===== src/Tests/Dispatchers.antt =====
-- Dispatchers at concrete inputs.
use expedit.Prelude.{◌≡◌, refl, ap, false, Option, none, some, List, [], ◌∷◌}
use expedit.Go.Value.{pos, Error, new, nil}
use expedit.Go.Context.{background}
use expedit.Message.{Message}
use expedit.Handler.{Run, Ret, ok, failed, Handler, err_of, panics}
use expedit.Subscriber.Dispatcher.{Delivery, DispatchOptions, Dispatcher, handle}
use expedit.Subscriber.Dispatcher.Contexts.{handle_context}
use expedit.Subscriber.Dispatcher.Settlement.{
  Event, acked, nacked, Observes, log_of, handle_settles_once,
}

-- The context of the delivery was cancelled.
abbrev late : Message
late = record {
  id = "5";
  metadata = some [];
  payload = nil;
  ctx = record background { scopes = 0 ∷ [] };
}

abbrev before : Run (List Event)
before = record { message = late; world = []; now = 100; next_scope = 1; cancelled = 0 ∷ [] }

abbrev delivery : Delivery (List Event)
delivery = record {
  message = late;
  ack = λ c s. ok tt (record s { world = acked ∷ s.world });
  nack = λ c s. failed (new "broker") (record s { world = nacked ∷ s.world });
}

abbrev options : DispatchOptions (List Event)
options = record {
  max_in_flight = pos 2;
  processing_timeout = pos 30;
  on_ack_error = none;
  on_nack_error = some (λ e s. ok tt s);
}

abbrev dispatcher : Handler (List Event) → Dispatcher (List Event)
dispatcher h = record { handler = h; opts = options; slots = 2 }

abbrev fails : Handler (List Event)
fails s = failed (new "boom") s

observed :
    (h : Handler (List Event))
    → ((s : Run (List Event)) → log_of (λ w. w) (h s) ≡ s.world)
    → Observes (λ w. w) (acked ∷ []) (nacked ∷ []) (dispatcher h) delivery
observed h quiet = record {
  by_handler = quiet;
  by_ack = λ c s live. refl;
  by_nack = λ c s live. refl;
  ack_returns = λ c s. refl;
  nack_returns = λ c s. refl;
  by_ack_error = λ e s. refl;
  by_nack_error = λ e s. refl;
  ack_error_returns = λ e s. refl;
  nack_error_returns = λ e s. refl;
}

handle_settles_once_example :
    (log_of (λ w. w) (handle (dispatcher fails) delivery before) ≡ nacked ∷ [])
    × (panics (handle (dispatcher fails) delivery before) ≡ false)
handle_settles_once_example =
    handle_settles_once (λ w. w) (dispatcher fails) delivery before (observed fails (λ s. refl))

-- A handler that fails if the context of its message has ended.
abbrev by_err : Run (List Event) → Option Error → Ret (List Event) (Unit {0})
by_err s none = ok tt s
by_err s (some e) = failed e s

abbrev polite : Handler (List Event)
polite s = by_err s (err_of s s.message.ctx)

handle_context_example :
    handle (dispatcher polite) delivery before ≡ handle (dispatcher (λ s. ok tt s)) delivery before
handle_context_example =
    handle_context (dispatcher fails) polite (λ s. ok tt s) delivery before refl
      (λ t fit. ap (by_err t) fit.live)
