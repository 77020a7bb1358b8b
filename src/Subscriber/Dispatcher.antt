-- ===== src/Subscriber/Dispatcher.antt =====
-- core/subscriber/dispatcher.go: one delivery. The slots and goroutines of Dispatch, and Wait, are in
-- Slots.antt.
pub mod Settlement
pub mod Contexts
pub mod Recovery
pub mod Slots
use expedit.Prelude.{ℕ, Option, none, some, if◌then◌else◌}
use expedit.Go.Value.{ℤ, pos, pos_part, is_positive, Error, Value}
use expedit.Go.Context.{Context, without_cancel}
use expedit.Message.{Message}
use expedit.Handler.{
  Run, Ret, ok, failed, panicked, Handler, err_of, put_context, timed, take_scope, cancel, deferred,
}
use expedit.Middleware.Errors.{Callback}

pub record Delivery (W : Type 0) : Type 0 where
  pub message : Message
  pub ack : Context → Handler W
  pub nack : Context → Handler W

abbrev pub default_max_in_flight : ℕ
default_max_in_flight = 10

pub record DispatchOptions (W : Type 0) : Type 0 where
  pub max_in_flight : ℤ
  pub processing_timeout : ℤ
  pub on_ack_error : Option (Callback W)
  pub on_nack_error : Option (Callback W)

-- `slots` is the capacity of the channel of slots.
pub record Dispatcher (W : Type 0) : Type 0 where
  pub handler : Handler W
  pub opts : DispatchOptions W
  pub slots : ℕ

unfoldable pub new_dispatcher : {W : Type 0} → Handler W → DispatchOptions W → Dispatcher W
new_dispatcher h opts =
    if is_positive opts.max_in_flight
    then record { handler = h; opts = opts; slots = pos_part opts.max_in_flight }
    else record {
      handler = h;
      opts = record opts { max_in_flight = pos default_max_in_flight };
      slots = default_max_in_flight;
    }

-- A callback returns nothing: what its call leaves is its state, or its panic.
abbrev no_result : {W : Type 0} → Ret W (Unit {0}) → Ret W (Unit {0})
no_result (ok a s) = ok a s
no_result (failed e s) = ok tt s
no_result (panicked v s) = panicked v s

abbrev pub call_back : {W : Type 0} → Option (Callback W) → Error → Handler W
call_back none e s = ok tt s
call_back (some f) e s = no_result (f e s)

-- `if err := m; err != nil && callback != nil { callback(msg, err) }`
abbrev reported : {W : Type 0} → Option (Callback W) → Ret W (Unit {0}) → Ret W (Unit {0})
reported f (ok a s) = ok a s
reported f (failed e s) = call_back f e s
reported f (panicked v s) = panicked v s

unfoldable pub nack : {W : Type 0} → Dispatcher W → Context → Delivery W → Handler W
nack d ctx delivery s = reported d.opts.on_nack_error (delivery.nack ctx s)

-- The handler, and the acknowledgement that its result asks for.
abbrev settle :
    {W : Type 0} → Dispatcher W → Context → Delivery W → Ret W (Unit {0}) → Ret W (Unit {0})
settle d ctx delivery (ok a s) = reported d.opts.on_ack_error (delivery.ack ctx s)
settle d ctx delivery (failed e s) = nack d ctx delivery s
settle d ctx delivery (panicked v s) = panicked v s

-- The deferred function that nacks and panics again. It recovers a panic of the handler, and one of
-- an acknowledgement or a callback too; a panic of its own replaces the first.
abbrev panic_again : {W : Type 0} → Value → Ret W (Unit {0}) → Ret W (Unit {0})
panic_again v (ok a s) = panicked v s
panic_again v (failed e s) = panicked v s
panic_again v (panicked v' s) = panicked v' s

abbrev nack_on_panic :
    {W : Type 0} → Dispatcher W → Context → Delivery W → Ret W (Unit {0}) → Ret W (Unit {0})
nack_on_panic d ctx delivery (ok a s) = ok a s
nack_on_panic d ctx delivery (failed e s) = failed e s
nack_on_panic d ctx delivery (panicked v s) = panic_again v (nack d ctx delivery s)

-- `Handle` from `msg.SetContext` on, with the message's context and the acknowledgement's.
handle_in : {W : Type 0} → Dispatcher W → Delivery W → Context → Context → Handler W
handle_in d delivery ack_ctx msg_ctx s =
    nack_on_panic d ack_ctx delivery (settle d ack_ctx delivery (d.handler (put_context msg_ctx s)))

-- `msg := delivery.Message` is the message of the state.
abbrev pub receive : {W : Type 0} → Delivery W → Run W → Run W
receive delivery s = record s { message = delivery.message }

unfoldable pub handle : {W : Type 0} → Dispatcher W → Delivery W → Handler W
unfolding nack handle_in
handle d delivery s =
    let ack_ctx = without_cancel delivery.message.ctx in
    if is_positive d.opts.processing_timeout
    then deferred (cancel s.next_scope) (
        handle_in d delivery ack_ctx (timed ack_ctx (pos_part d.opts.processing_timeout) s)
          (take_scope (receive delivery s)))
    else handle_in d delivery ack_ctx ack_ctx (receive delivery s)

-- What `Dispatch` does: the delivery waits for a slot (`queued`: a goroutine calls Handle once there
-- is one), or is nacked at once because ctx is done.
pub data Dispatched : Type 0 where
  queued nacked : Dispatched

-- The test in front of the `select` of Dispatch.
unfoldable pub admit : {W : Type 0} → Context → Run W → Dispatched
admit ctx s = elim (err_of s ctx) [ none ↦ queued | some e ↦ nacked ]

-- The last line of Dispatch.
unfoldable pub reject : {W : Type 0} → Dispatcher W → Delivery W → Handler W
unfolding nack
reject d delivery s = nack d (without_cancel delivery.message.ctx) delivery (receive delivery s)
