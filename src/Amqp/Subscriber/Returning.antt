-- ===== src/Amqp/Subscriber/Returning.antt =====
-- When Receive of an AMQP subscriber returns, and with what.
use expedit.Prelude.{Option, none, some, List, [], ◌∷◌, ◌≡◌, refl, ap, ◌⊎◌, inl, inr}
use expedit.Go.Value.{Error}
use expedit.Go.Context.{Context}
use expedit.Handler.{Run, Ret, ok, failed, err_of, deferred}
use expedit.Subscriber.Dispatcher.{Delivery}
use expedit.Amqp.Subscriber.{
  AmqpSubscriber, AmqpDelivery, Choice, done, arrived, closed, delivery, loop, receive, on_closed,
  err_channel_closed,
}

module _ {W : Type 0} (sub : AmqpSubscriber W) (dispatch : Delivery W → Run W → Run W)
    (ctx : Context) where
  -- The deliveries are dispatched one behind the other.
  abbrev pub dispatch_each : List (AmqpDelivery W) → Run W → Run W
  dispatch_each [] s = s
  dispatch_each (d ∷ ds) s = dispatch_each ds (dispatch (delivery sub ctx d) s)

  abbrev pub arrive_each : List (AmqpDelivery W) → List (Choice W) → List (Choice W)
  arrive_each [] rest = rest
  arrive_each (d ∷ ds) rest = arrived d ∷ arrive_each ds rest

  -- The result behind the deliveries, by the case of the `select` that ends the loop.
  abbrev pub Ends : (Run W → Run W) → Choice W → Run W → Ret W (Unit {0}) → Type 0
  Ends wait done t r = r ≡ ok tt (wait t)
  Ends wait closed t r =
      ((err_of t ctx ≡ none) × (r ≡ failed err_channel_closed (wait t)))
      ⊎ ((e : Error) × (err_of t ctx ≡ some e) × (r ≡ ok tt (wait t)))
  Ends wait (arrived d) t r = ⊥

  pub record Returned (wait : Run W → Run W) (choices : List (Choice W)) (s : Run W)
      (r : Ret W (Unit {0})) : Type 0 where
    pub handled : List (AmqpDelivery W)
    pub last : Choice W
    pub rest : List (Choice W)
    pub taken : choices ≡ arrive_each handled (last ∷ rest)
    pub ends : Ends wait last (dispatch_each handled s) r

  -- The loop waits for the next case behind deliveries only.
  pub record IsWaiting (wait : Run W → Run W) (choices : List (Choice W)) (s : Run W) : Type 0 where
    pub handled : List (AmqpDelivery W)
    pub taken : choices ≡ arrive_each handled []
    pub not_yet : receive sub dispatch ctx wait (ok tt s) choices ≡ none

  abbrev pub HasReturned : (Run W → Run W) → List (Choice W) → Run W → Type 0
  HasReturned wait choices s =
      (r : Ret W (Unit {0})) × (receive sub dispatch ctx wait (ok tt s) choices ≡ some r)
      × Returned wait choices s r

  closed_ends :
      (wait : Run W → Run W) (o : Option Error) (t : Run W)
      → err_of t ctx ≡ o
      → Ends wait closed t (deferred wait (on_closed sub dispatch ctx o t))
  closed_ends wait none t live = inl (live, refl)
  closed_ends wait (some e) t over = inr (e, over, refl)

  one_more :
      (wait : Run W → Run W) (d : AmqpDelivery W) (choices : List (Choice W)) (s : Run W)
      → HasReturned wait choices (dispatch (delivery sub ctx d) s)
        ⊎ IsWaiting wait choices (dispatch (delivery sub ctx d) s)
      → HasReturned wait (arrived d ∷ choices) s ⊎ IsWaiting wait (arrived d ∷ choices) s
  unfolding receive loop
  one_more wait d choices s (inl (r, e, later)) = inl (
    r,
    e,
    record {
      handled = d ∷ later.handled;
      last = later.last;
      rest = later.rest;
      taken = ap (λ l. arrived d ∷ l) later.taken;
      ends = later.ends;
    },
  )
  one_more wait d choices s (inr later) = inr (record {
    handled = d ∷ later.handled;
    taken = ap (λ l. arrived d ∷ l) later.taken;
    not_yet = later.not_yet;
  })

  -- Once consuming has begun, for all cases that the select of Receive takes one behind the other:
  -- either they are deliveries only, and Receive has not returned; or Receive has dispatched the
  -- deliveries in front of the first other case, in that order, has then waited for them, and has
  -- returned nil if that case is that ctx is done, or that the deliveries are closed while ctx is
  -- done, and ErrChannelClosed if they are closed while ctx is not done.
  pub receive_cases :
      (wait : Run W → Run W) (choices : List (Choice W)) (s : Run W)
      → HasReturned wait choices s ⊎ IsWaiting wait choices s
  unfolding receive loop
  receive_cases wait [] s = inr (record { handled = []; taken = refl; not_yet = refl })
  receive_cases wait (done ∷ choices) s = inl (
    ok tt (wait s),
    refl,
    record { handled = []; last = done; rest = choices; taken = refl; ends = refl },
  )
  receive_cases wait (closed ∷ choices) s = inl (
    deferred wait (on_closed sub dispatch ctx (err_of s ctx) s),
    refl,
    record {
      handled = [];
      last = closed;
      rest = choices;
      taken = refl;
      ends = closed_ends wait (err_of s ctx) s refl;
    },
  )
  receive_cases wait (arrived d ∷ choices) s =
      one_more wait d choices s (receive_cases wait choices (dispatch (delivery sub ctx d) s))
