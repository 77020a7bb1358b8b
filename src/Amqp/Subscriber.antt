-- ===== src/Amqp/Subscriber.antt =====
-- amqp/subscriber.go. The dispatcher of Receive, whose goroutines run beside the loop, is an argument.
pub mod Settling
pub mod Returning
use expedit.Prelude.{
  ℕ, String, Bool, true, false, not, Option, none, some, List, [], ◌∷◌, ◌⊎◌, inl, inr,
  if◌then◌else◌,
}
use expedit.Go.Value.{ℤ, pos, bytes, Error, new, sentinel}
use expedit.Go.Context.{Context}
use expedit.Message.{Message, Metadata, new_message}
use expedit.Handler.{Run, Ret, ok, failed, panicked, Call, Handler, err_of, deferred}
use expedit.Middleware.Errors.{Callback}
use expedit.Subscriber.Dispatcher.{Delivery, DispatchOptions, default_max_in_flight}
use expedit.Amqp.Headers.{Table}

pub record SubscriberOptions (W : Type 0) : Type 0 where
  pub auto_ack : Bool
  pub no_requeue_on_nack : Bool
  pub exclusive : Bool
  pub processing_timeout : ℤ
  pub max_in_flight : ℤ
  pub on_ack_error : Option (Callback W)
  pub on_nack_error : Option (Callback W)

abbrev pub SubscriberOption : Type 0 → Type 0
SubscriberOption W = SubscriberOptions W → SubscriberOptions W

unfoldable pub with_auto_ack : {W : Type 0} → SubscriberOption W
with_auto_ack opts = record opts { auto_ack = true }

unfoldable pub with_no_requeue_on_nack : {W : Type 0} → SubscriberOption W
with_no_requeue_on_nack opts = record opts { no_requeue_on_nack = true }

unfoldable pub with_exclusive : {W : Type 0} → SubscriberOption W
with_exclusive opts = record opts { exclusive = true }

unfoldable pub with_processing_timeout : {W : Type 0} → ℤ → SubscriberOption W
with_processing_timeout timeout opts = record opts { processing_timeout = timeout }

unfoldable pub with_max_in_flight : {W : Type 0} → ℤ → SubscriberOption W
with_max_in_flight max opts = record opts { max_in_flight = max }

unfoldable pub with_ack_error_handler : {W : Type 0} → Option (Callback W) → SubscriberOption W
with_ack_error_handler handler opts = record opts { on_ack_error = handler }

unfoldable pub with_nack_error_handler : {W : Type 0} → Option (Callback W) → SubscriberOption W
with_nack_error_handler handler opts = record opts { on_nack_error = handler }

abbrev pub err_channel_closed : Error
err_channel_closed = sentinel "amqp channel closed"

pub record AmqpSubscriber (W : Type 0) : Type 0 where
  pub queue : String
  pub options : SubscriberOptions W

abbrev pub default_options : {W : Type 0} → SubscriberOptions W
default_options = record {
  auto_ack = false;
  no_requeue_on_nack = false;
  exclusive = false;
  processing_timeout = pos 0;
  max_in_flight = pos default_max_in_flight;
  on_ack_error = none;
  on_nack_error = none;
}

unfoldable pub apply_options :
    {W : Type 0} → List (SubscriberOption W) → SubscriberOptions W → SubscriberOptions W
apply_options [] options = options
apply_options (opt ∷ opts) options = apply_options opts (opt options)

-- The first argument says whether there is a channel.
unfoldable pub new_amqp_subscriber :
    {W : Type 0} → Bool → String → List (SubscriberOption W) → Error ⊎ AmqpSubscriber W
unfolding apply_options
new_amqp_subscriber false queue opts = inl (new "channel is required")
new_amqp_subscriber true queue opts =
    inr (record { queue = queue; options = apply_options opts default_options })

-- What the code uses of amqp.Delivery: `ack` takes `multiple`, `nack` takes `multiple` and `requeue`.
-- Headers may be nil.
pub record AmqpDelivery (W : Type 0) : Type 0 where
  pub body : List ℕ
  pub message_id : String
  pub headers : Option Table
  pub ack : Bool → Handler W
  pub nack : Bool → Bool → Handler W

abbrev pub metadata_of : Option Table → Metadata
metadata_of none = some []
metadata_of (some headers) = some headers

unfoldable pub to_message : {W : Type 0} → Context → AmqpDelivery W → Message
to_message ctx d = record (new_message ctx (bytes d.body)) {
  id = d.message_id;
  metadata = metadata_of d.headers;
}

unfoldable pub delivery : {W : Type 0} → AmqpSubscriber W → Context → AmqpDelivery W → Delivery W
unfolding to_message
delivery sub ctx d = record {
  message = to_message ctx d;
  ack = λ c s. if sub.options.auto_ack then ok tt s else d.ack false s;
  nack = λ c s.
      if sub.options.auto_ack then ok tt s else d.nack false (not sub.options.no_requeue_on_nack) s;
}

unfoldable pub dispatch_options : {W : Type 0} → AmqpSubscriber W → DispatchOptions W
dispatch_options sub = record {
  max_in_flight = sub.options.max_in_flight;
  processing_timeout = sub.options.processing_timeout;
  on_ack_error = sub.options.on_ack_error;
  on_nack_error = sub.options.on_nack_error;
}

-- The case that the `select` of Receive takes.
pub data Choice (W : Type 0) : Type 0 where
  done : Choice W  -- ctx.Done()
  arrived : AmqpDelivery W → Choice W
  closed : Choice W  -- deliveries is closed

module _ {W : Type 0} (sub : AmqpSubscriber W) (dispatch : Delivery W → Run W → Run W)
    (ctx : Context) where
  abbrev pub on_closed : Option Error → Run W → Ret W (Unit {0})
  on_closed none s = failed err_channel_closed s
  on_closed (some e) s = ok tt s

  -- The loop of Receive, for the cases that it takes: `none` if it has not returned behind them.
  unfoldable pub loop : List (Choice W) → Run W → Option (Ret W (Unit {0}))
  loop [] s = none
  loop (done ∷ choices) s = some (ok tt s)
  loop (closed ∷ choices) s = some (on_closed (err_of s ctx) s)
  loop (arrived d ∷ choices) s = loop choices (dispatch (delivery sub ctx d) s)

  -- `wait` is the deferred `d.Wait()`.
  abbrev pub waited : (Run W → Run W) → Option (Ret W (Unit {0})) → Option (Ret W (Unit {0}))
  waited wait none = none
  waited wait (some r) = some (deferred wait r)

  -- Behind Consume.
  unfoldable pub receive :
      (Run W → Run W) → Ret W (Unit {0}) → List (Choice W) → Option (Ret W (Unit {0}))
  unfolding loop
  receive wait (ok a s) choices = waited wait (loop choices s)
  receive wait (failed e s) choices = some (failed e s)
  receive wait (panicked v s) choices = some (panicked v s)
