-- ===== src/Amqp/Subscriber/Settling.antt =====
-- What the broker gets for a delivery that an AMQP subscriber dispatches.
use expedit.Prelude.{
  Bool, true, false, not, List, [], ◌∷◌, ◌++◌, ◌≡◌, refl, ap, ◌∙◌, if◌then◌else◌, Bool-cases, inl,
  inr,
}
use expedit.Go.Value.{Error, is_positive}
use expedit.Go.Context.{Context}
use expedit.Handler.{Run, Ret, ok, failed, panicked, Handler, panics}
use expedit.Subscriber.Dispatcher.{DispatchOptions, Dispatcher, call_back, new_dispatcher, handle}
use expedit.Subscriber.Dispatcher.Contexts.{given}
use expedit.Subscriber.Dispatcher.Settlement.{Observes, log_of, answer, handle_adds}
use expedit.Amqp.Subscriber.{AmqpSubscriber, AmqpDelivery, delivery, dispatch_options}

-- The calls of the broker, with `multiple`, and `requeue` for a nack.
pub data Answer : Type 0 where
  acked : Bool → Answer
  nacked : Bool → Bool → Answer

-- The broker logs the two calls in a part of the world that the handler and the callbacks leave alone;
-- none but the handler panics.
pub record Logs {W : Type 0} (log : W → List Answer) (sub : AmqpSubscriber W) (h : Handler W)
    (d : AmqpDelivery W) : Type 0 where
  pub by_handler : (s : Run W) → log_of log (h s) ≡ log s.world
  pub by_ack : (m : Bool) (s : Run W) → log_of log (d.ack m s) ≡ acked m ∷ log s.world
  pub by_nack : (m r : Bool) (s : Run W) → log_of log (d.nack m r s) ≡ nacked m r ∷ log s.world
  pub ack_returns : (m : Bool) (s : Run W) → panics (d.ack m s) ≡ false
  pub nack_returns : (m r : Bool) (s : Run W) → panics (d.nack m r s) ≡ false
  pub by_ack_error :
      (e : Error) (s : Run W) → log_of log (call_back sub.options.on_ack_error e s) ≡ log s.world
  pub by_nack_error :
      (e : Error) (s : Run W) → log_of log (call_back sub.options.on_nack_error e s) ≡ log s.world
  pub ack_error_returns :
      (e : Error) (s : Run W) → panics (call_back sub.options.on_ack_error e s) ≡ false
  pub nack_error_returns :
      (e : Error) (s : Run W) → panics (call_back sub.options.on_nack_error e s) ≡ false

abbrev pub dispatcher : {W : Type 0} → AmqpSubscriber W → Handler W → Dispatcher W
dispatcher sub h = new_dispatcher h (dispatch_options sub)

-- What the result of a handler asks for.
abbrev pub verdict_of : {W : Type 0} → Bool → Ret W (Unit {0}) → Answer
verdict_of requeue (ok a s) = acked false
verdict_of requeue (failed e s) = nacked false requeue
verdict_of requeue (panicked v s) = nacked false requeue

-- What is due for an ack and for a nack.
abbrev pub unless_auto : Bool → Answer → List Answer
unless_auto auto_ack a = if auto_ack then [] else a ∷ []

-- The dispatcher has the handler and the callbacks that it is made with.
new_dispatcher-parts :
    {W : Type 0} (h : Handler W) (o : DispatchOptions W)
    → ((new_dispatcher h o).handler ≡ h)
      × ((new_dispatcher h o).opts.on_ack_error ≡ o.on_ack_error)
      × ((new_dispatcher h o).opts.on_nack_error ≡ o.on_nack_error)
unfolding new_dispatcher
new_dispatcher-parts h o = elim (Bool-cases (is_positive o.max_in_flight)) [
  | inl p ↦ rw p (refl, refl, refl)
  | inr p ↦ rw p (refl, refl, refl)
]

module _ {W : Type 0} (log : W → List Answer) where
  log-unless :
      (auto_ack : Bool) (a : Answer) (s : Run W) (r : Ret W (Unit {0}))
      → log_of log r ≡ a ∷ log s.world
      → log_of log (if auto_ack then ok tt s else r) ≡ unless_auto auto_ack a ++ log s.world
  log-unless true a s r h = refl
  log-unless false a s r h = h

  panics-unless :
      (auto_ack : Bool) (s : Run W) (r : Ret W (Unit {0}))
      → panics r ≡ false
      → panics (if auto_ack then ok tt s else r) ≡ false
  panics-unless true s r h = refl
  panics-unless false s r h = h

  module _ (sub : AmqpSubscriber W) (h : Handler W) (ctx : Context) (d : AmqpDelivery W)
      (l : Logs log sub h d) where
    observed :
        Observes log
          (unless_auto sub.options.auto_ack (acked false))
          (unless_auto sub.options.auto_ack (nacked false (not sub.options.no_requeue_on_nack)))
          (dispatcher sub h)
          (delivery sub ctx d)
    unfolding dispatch_options delivery
    observed =
        let (handler, on_ack, on_nack) = new_dispatcher-parts h (dispatch_options sub) in
        let auto = sub.options.auto_ack in
        let requeue = not sub.options.no_requeue_on_nack in
        record {
          by_handler = λ s. ap (λ f. log_of log (f s)) handler ∙ l.by_handler s;
          by_ack = λ c s live. log-unless auto (acked false) s (d.ack false s) (l.by_ack false s);
          by_nack = λ c s live.
              log-unless auto (nacked false requeue) s (d.nack false requeue s)
                (l.by_nack false requeue s);
          ack_returns = λ c s. panics-unless auto s (d.ack false s) (l.ack_returns false s);
          nack_returns =
              λ c s. panics-unless auto s (d.nack false requeue s) (l.nack_returns false requeue s);
          by_ack_error = λ e s. ap (λ f. log_of log (call_back f e s)) on_ack ∙ l.by_ack_error e s;
          by_nack_error =
              λ e s. ap (λ f. log_of log (call_back f e s)) on_nack ∙ l.by_nack_error e s;
          ack_error_returns =
              λ e s. ap (λ f. panics (call_back f e s)) on_ack ∙ l.ack_error_returns e s;
          nack_error_returns =
              λ e s. ap (λ f. panics (call_back f e s)) on_nack ∙ l.nack_error_returns e s;
        }

    -- When the dispatcher of an AMQP subscriber handles a delivery, the broker gets exactly one call:
    -- an ack of this delivery alone if the handler returns nil, and otherwise a nack of it alone,
    -- which asks to requeue it unless WithNoRequeueOnNack was given. With WithAutoAck the broker
    -- gets no call at all.
    pub delivery_settled :
        (s : Run W)
        → log_of log (handle (dispatcher sub h) (delivery sub ctx d) s)
          ≡ unless_auto sub.options.auto_ack (
              verdict_of
                (not sub.options.no_requeue_on_nack)
                (h (given (dispatcher sub h) (delivery sub ctx d) s)))
            ++ log s.world
    delivery_settled s =
        let requeue = not sub.options.no_requeue_on_nack in
        let (logged, same) =
          handle_adds log (unless_auto sub.options.auto_ack (acked false))
            (unless_auto sub.options.auto_ack (nacked false requeue)) (dispatcher sub h)
            (delivery sub ctx d) s observed in
        let (handler, on_ack, on_nack) = new_dispatcher-parts h (dispatch_options sub) in
        let at = given (dispatcher sub h) (delivery sub ctx d) s in
        logged
        ∙ (ap
              (λ f.
                answer (unless_auto sub.options.auto_ack (acked false))
                  (unless_auto sub.options.auto_ack (nacked false requeue)) (f at)
                ++ log s.world)
              handler
            ∙ ap (λ x. x ++ log s.world) (chosen requeue (h at)))
      where
        chosen :
            (requeue : Bool) (r : Ret W (Unit {0}))
            → answer
                (unless_auto sub.options.auto_ack (acked false))
                (unless_auto sub.options.auto_ack (nacked false requeue))
                r
              ≡ unless_auto sub.options.auto_ack (verdict_of requeue r)
        chosen requeue (ok a t) = refl
        chosen requeue (failed e t) = refl
        chosen requeue (panicked v t) = refl
