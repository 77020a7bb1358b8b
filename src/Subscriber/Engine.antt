-- ===== src/Subscriber/Engine.antt =====
-- core/subscriber/engine.go: SubscriptionEngine. `receive` is the Receive method of the Subscriber.
pub mod Lifecycle
use expedit.Prelude.{Option, none, some}
use expedit.Go.Context.{Context}
use expedit.Handler.{Run, Ret, Handler}
use expedit.Middleware.Chain.{Middleware, Chain, new_chain, add, wrap}
use expedit.Subscriber.Router.{SubscriptionRouter, handler_func}

pub record SubscriptionEngine (W : Type 0) : Type 0 where
  pub receive : Context → Handler W → Handler W
  pub router : SubscriptionRouter W
  pub mc : Chain W
  pub handler_fn : Option (Handler W)

unfoldable pub new_subscription_engine :
    {W : Type 0} → (Context → Handler W → Handler W) → SubscriptionRouter W → SubscriptionEngine W
unfolding new_chain
new_subscription_engine receive router = record {
  receive = receive;
  router = router;
  mc = new_chain;
  handler_fn = none;
}

-- `none` is the panic "cannot add middleware after subscription has started".
unfoldable pub add_middleware :
    {W : Type 0} → Middleware W → SubscriptionEngine W → Option (SubscriptionEngine W)
unfolding add
add_middleware m e = elim e.handler_fn [
  | some h ↦ none
  | none ↦ some (record e { mc = add m e.mc })
]

-- The section under the lock: `none` is the panic "cannot start subscription engine twice".
unfoldable pub prepare :
    {W : Type 0} → SubscriptionEngine W → Option (Handler W × SubscriptionEngine W)
prepare e = elim e.handler_fn [
  | some h ↦ none
  | none ↦ let h = wrap e.mc (handler_func e.router) in some (h, record e { handler_fn = some h })
]

unfoldable pub start :
    {W : Type 0}
    → Context
    → SubscriptionEngine W
    → Run W
    → Option (SubscriptionEngine W × Ret W (Unit {0}))
unfolding prepare
start ctx e s = elim (prepare e) [ none ↦ none | some (h, e') ↦ some (e', e.receive ctx h s) ]
