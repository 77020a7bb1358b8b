-- ===== src/Subscriber/Engine/Lifecycle.antt =====
-- The life of a subscription engine.
use expedit.Prelude.{
  ◌≡◌, refl, sym, ap, ◌∙◌, Option, none, some, List, [], ◌∷◌, ◌++◌, append_assoc, append-nil,
}
use expedit.Go.Context.{Context}
use expedit.Handler.{Run, Handler}
use expedit.Middleware.Chain.{Middleware, add}
use expedit.Middleware.Chain.Order.{nest, wrap-nest}
use expedit.Subscriber.Router.{SubscriptionRouter, handler_func}
use expedit.Subscriber.Engine.{SubscriptionEngine, new_subscription_engine, add_middleware, start}

abbrev then_add :
    {W : Type 0} → Option (SubscriptionEngine W) → Middleware W → Option (SubscriptionEngine W)
then_add none m = none
then_add (some e) m = add_middleware m e

-- AddMiddleware for each middleware in turn; `none` if one of the calls panics.
abbrev pub add_each :
    {W : Type 0}
    → Option (SubscriptionEngine W)
    → List (Middleware W)
    → Option (SubscriptionEngine W)
add_each o [] = o
add_each o (m ∷ ms) = add_each (then_add o m) ms

module _ {W : Type 0} (receive : Context → Handler W → Handler W)
    (router : SubscriptionRouter W) where
  -- The engine that waits for Start.
  abbrev pub waiting : List (Middleware W) → SubscriptionEngine W
  waiting ms = record {
    receive = receive;
    router = router;
    mc = record { middlewares = ms };
    handler_fn = none;
  }

  add_each_lem :
      (before ms : List (Middleware W))
      → add_each (some (waiting before)) ms ≡ some (waiting (before ++ ms))
  unfolding add_middleware add
  add_each_lem before [] = ap (λ l. some (waiting l)) (sym (append-nil before))
  add_each_lem before (m ∷ ms) =
      add_each_lem (before ++ m ∷ []) ms
      ∙ ap (λ l. some (waiting l)) (append_assoc before (m ∷ []) ms)

  -- The engine that Start leaves.
  abbrev pub running : List (Middleware W) → SubscriptionEngine W
  running ms = record (waiting ms) { handler_fn = some (nest ms (handler_func router)) }

  start_first :
      (ms : List (Middleware W)) (ctx : Context) (s : Run W)
      → start ctx (waiting ms) s ≡ some (running ms, receive ctx (nest ms (handler_func router)) s)
  unfolding start
  start_first ms ctx s =
      ap (λ (h : Handler W). some (record (waiting ms) { handler_fn = some h }, receive ctx h s))
        (wrap-nest (record { middlewares = ms }) (handler_func router))

  -- A new engine takes any middlewares, none of the calls of AddMiddleware panics. Start calls Receive of the subscriber with the router's
  -- handler inside all of them, the first added outermost; after that a second Start panics, and so
  -- does AddMiddleware.
  pub start_once :
      (ms : List (Middleware W)) (m : Middleware W) (ctx ctx' : Context) (s t : Run W)
      → (add_each (some (new_subscription_engine receive router)) ms ≡ some (waiting ms))
        × (start ctx (waiting ms) s
            ≡ some (running ms, receive ctx (nest ms (handler_func router)) s))
        × (start ctx' (running ms) t ≡ none)
        × (add_middleware m (running ms) ≡ none)
  unfolding add_middleware start new_subscription_engine
  start_once ms m ctx ctx' s t = (add_each_lem [] ms, start_first ms ctx s, refl, refl)
