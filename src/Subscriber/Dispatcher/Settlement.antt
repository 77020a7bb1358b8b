-- ===== src/Subscriber/Dispatcher/Settlement.antt =====
-- Every delivery that is handled is acked or nacked once.
use expedit.Prelude.{
  ℕ, ◌≡◌, refl, ap, ◌∙◌, Bool, true, false, Option, none, List, [], ◌∷◌, ◌++◌, Bool-cases, inl, inr,
}
use expedit.Go.Value.{Error, Value, is_positive}
use expedit.Go.Context.{Context, without_cancel}
use expedit.Handler.{
  Run, Ret, ok, failed, panicked, Handler, err_of, final, panics, deferred, put_context, cancel,
}
use expedit.Subscriber.Dispatcher.{
  Delivery, Dispatcher, call_back, reported, settle, nack_on_panic, panic_again, nack, handle_in,
  handle,
}
use expedit.Subscriber.Dispatcher.Contexts.{given}

pub data Event : Type 0 where
  acked nacked : Event

-- What the result of a handler asks for.
abbrev pub verdict : {W : Type 0} → Ret W (Unit {0}) → Event
verdict (ok a s) = acked
verdict (failed e s) = nacked
verdict (panicked v s) = nacked

-- The same, with the events that an ack and a nack of the delivery are for the broker.
abbrev pub answer : {W E : Type 0} → List E → List E → Ret W (Unit {0}) → List E
answer acks nacks (ok a s) = acks
answer acks nacks (failed e s) = nacks
answer acks nacks (panicked v s) = nacks

abbrev pub log_of : {W A E : Type 0} → (W → List E) → Ret W A → List E
log_of log r = log (final r).world

-- `log` is the part of the world in which the broker sees the acknowledgements of the delivery. The
-- handler and the callbacks leave it alone; an ack or a nack whose context has not ended adds `acks`
-- or `nacks` to it, whether or not it returns an error. None but the handler panics.
pub record Observes {W E : Type 0} (log : W → List E) (acks nacks : List E) (d : Dispatcher W)
    (delivery : Delivery W) : Type 0 where
  pub by_handler : (s : Run W) → log_of log (d.handler s) ≡ log s.world
  pub by_ack :
      (c : Context) (s : Run W)
      → err_of s c ≡ none
      → log_of log (delivery.ack c s) ≡ acks ++ log s.world
  pub by_nack :
      (c : Context) (s : Run W)
      → err_of s c ≡ none
      → log_of log (delivery.nack c s) ≡ nacks ++ log s.world
  pub ack_returns : (c : Context) (s : Run W) → panics (delivery.ack c s) ≡ false
  pub nack_returns : (c : Context) (s : Run W) → panics (delivery.nack c s) ≡ false
  pub by_ack_error :
      (e : Error) (s : Run W) → log_of log (call_back d.opts.on_ack_error e s) ≡ log s.world
  pub by_nack_error :
      (e : Error) (s : Run W) → log_of log (call_back d.opts.on_nack_error e s) ≡ log s.world
  pub ack_error_returns :
      (e : Error) (s : Run W) → panics (call_back d.opts.on_ack_error e s) ≡ false
  pub nack_error_returns :
      (e : Error) (s : Run W) → panics (call_back d.opts.on_nack_error e s) ≡ false

module _ {W E : Type 0} (log : W → List E) where
  -- Reporting an error of an acknowledgement changes neither the log nor whether it panics.
  reported_silent :
      (f : Option (Error → Handler W)) (r : Ret W (Unit {0}))
      → ((e : Error) (s : Run W) → log_of log (call_back f e s) ≡ log s.world)
      → ((e : Error) (s : Run W) → panics (call_back f e s) ≡ false)
      → (log_of log (reported f r) ≡ log_of log r) × (panics (reported f r) ≡ panics r)
  reported_silent f (ok a s) h k = (refl, refl)
  reported_silent f (failed e s) h k = (h e s, k e s)
  reported_silent f (panicked v s) h k = (refl, refl)

  log-deferred :
      {A : Type 0} (n : ℕ) (r : Ret W A)
      → (log_of log (deferred (λ s. record s { cancelled = n ∷ s.cancelled }) r) ≡ log_of log r)
        × (panics (deferred (λ s. record s { cancelled = n ∷ s.cancelled }) r) ≡ panics r)
  log-deferred n (ok a s) = (refl, refl)
  log-deferred n (failed e s) = (refl, refl)
  log-deferred n (panicked v s) = (refl, refl)

  log-panic_again :
      (v : Value) (r : Ret W (Unit {0}))
      → (log_of log (panic_again v r) ≡ log_of log r) × (panics (panic_again v r) ≡ true)
  log-panic_again v (ok a s) = (refl, refl)
  log-panic_again v (failed e s) = (refl, refl)
  log-panic_again v (panicked v' s) = (refl, refl)

  nack_on_panic_of_returns :
      (d : Dispatcher W) (c : Context) (delivery : Delivery W) (r : Ret W (Unit {0}))
      → panics r ≡ false
      → nack_on_panic d c delivery r ≡ r
  nack_on_panic_of_returns d c delivery (ok a s) h = refl
  nack_on_panic_of_returns d c delivery (failed e s) h = refl
  nack_on_panic_of_returns d c delivery (panicked v s) h = cc

  module _ (acks nacks : List E) (d : Dispatcher W) (delivery : Delivery W)
      (o : Observes log acks nacks d delivery) where
    open o use {
      by_ack, by_nack, ack_returns, nack_returns, by_ack_error, by_nack_error, ack_error_returns,
      nack_error_returns,
    }

    nack_lem :
        (c : Context) (s : Run W)
        → err_of s c ≡ none
        → (log_of log (nack d c delivery s) ≡ nacks ++ log s.world)
          × (panics (nack d c delivery s) ≡ false)
    unfolding nack
    nack_lem c s live =
        let same =
          reported_silent d.opts.on_nack_error (delivery.nack c s) by_nack_error
            nack_error_returns in
        (same.0 ∙ by_nack c s live, same.1 ∙ nack_returns c s)

    -- The handler has returned `r`.
    settle_lem :
        (c : Context) (r : Ret W (Unit {0}))
        → ((s : Run W) → err_of s c ≡ none)
        → (log_of log (nack_on_panic d c delivery (settle d c delivery r))
            ≡ answer acks nacks r ++ log_of log r)
          × (panics (nack_on_panic d c delivery (settle d c delivery r)) ≡ panics r)
    settle_lem c (ok a s) live =
        let same =
          reported_silent d.opts.on_ack_error (delivery.ack c s) by_ack_error ack_error_returns in
        let returns = same.1 ∙ ack_returns c s in
        rw (nack_on_panic_of_returns d c delivery _ returns) (same.0 ∙ by_ack c s (live s), returns)
    settle_lem c (failed e s) live =
        let (logged, returns) = nack_lem c s (live s) in
        rw (nack_on_panic_of_returns d c delivery _ returns) (logged, returns)
    settle_lem c (panicked v s) live =
        let same = log-panic_again v (nack d c delivery s) in
        (same.0 ∙ (nack_lem c s (live s)).0, same.1)

    handle_in_lem :
        (c : Context) (msg_ctx : Context) (s : Run W)
        → ((t : Run W) → err_of t c ≡ none)
        → (log_of log (handle_in d delivery c msg_ctx s)
            ≡ answer acks nacks (d.handler (put_context msg_ctx s)) ++ log s.world)
          × (panics (handle_in d delivery c msg_ctx s) ≡ panics (d.handler (put_context msg_ctx s)))
    unfolding handle_in
    handle_in_lem c msg_ctx s live =
        let done = settle_lem c (d.handler (put_context msg_ctx s)) live in
        (
          done.0
              ∙ ap (λ l. answer acks nacks (d.handler (put_context msg_ctx s)) ++ l)
                  (o.by_handler (put_context msg_ctx s)),
          done.1,
        )

-- What Handle adds to the log, whatever an ack and a nack add to it.
pub handle_adds :
    {W E : Type 0} (log : W → List E) (acks nacks : List E) (d : Dispatcher W)
    (delivery : Delivery W) (s : Run W)
    → Observes log acks nacks d delivery
    → (log_of log (handle d delivery s)
        ≡ answer acks nacks (d.handler (given d delivery s)) ++ log s.world)
      × (panics (handle d delivery s) ≡ panics (d.handler (given d delivery s)))
unfolding handle
handle_adds {W} {E} log acks nacks d delivery s o =
    elim (Bool-cases (is_positive d.opts.processing_timeout)) [
      | inl p ↦ rw p (unscoped _ (handle_in_lem log acks nacks d delivery o c _ _ (λ t. refl)))
      | inr p ↦ rw p (handle_in_lem log acks nacks d delivery o c _ _ (λ t. refl))
    ]
  where
    c : Context
    c = without_cancel delivery.message.ctx

    unscoped :
        (r : Ret W (Unit {0})) {l : List E} {b : Bool}
        → (log_of log r ≡ l) × (panics r ≡ b)
        → (log_of log (deferred (cancel s.next_scope) r) ≡ l)
          × (panics (deferred (cancel s.next_scope) r) ≡ b)
    unscoped r h = let same = log-deferred log s.next_scope r in (same.0 ∙ h.0, same.1 ∙ h.1)

-- Handle acks the delivery once if its handler returns nil, and nacks it once if the handler returns an
-- error or panics; nothing else is acknowledged. Handle panics exactly if the handler does. The
-- context of the acknowledgement has not ended, whatever has become of the delivery's.
pub handle_settles_once :
    {W : Type 0} (log : W → List Event) (d : Dispatcher W) (delivery : Delivery W) (s : Run W)
    → Observes log (acked ∷ []) (nacked ∷ []) d delivery
    → (log_of log (handle d delivery s) ≡ verdict (d.handler (given d delivery s)) ∷ log s.world)
      × (panics (handle d delivery s) ≡ panics (d.handler (given d delivery s)))
handle_settles_once log d delivery s o =
    let (logged, same) = handle_adds log (acked ∷ []) (nacked ∷ []) d delivery s o in
    (logged ∙ one (d.handler (given d delivery s)) (log s.world), same)
  where
    one :
        {W : Type 0} (r : Ret W (Unit {0})) (l : List Event)
        → answer (acked ∷ []) (nacked ∷ []) r ++ l ≡ verdict r ∷ l
    one (ok a t) l = refl
    one (failed e t) l = refl
    one (panicked v t) l = refl
