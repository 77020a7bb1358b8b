-- ===== src/Publisher/Engine.antt =====
-- core/publisher/engine.go: PublishingEngine.
pub mod Lifecycle
use expedit.Prelude.{Option, none, some}
use expedit.Handler.{Run, Ret, Handler}
use expedit.Middleware.Chain.{Middleware, Chain, new_chain, add, wrap}

-- `pub` is the Publish method of the Publisher behind the engine.
pub record PublishingEngine (W : Type 0) : Type 0 where
  pub publisher : Handler W
  pub mc : Chain W
  pub handler_fn : Option (Handler W)

unfoldable pub new_publishing_engine : {W : Type 0} → Handler W → PublishingEngine W
unfolding new_chain
new_publishing_engine p = record { publisher = p; mc = new_chain; handler_fn = none }

-- `none` is the panic "cannot add middleware after publishing has started".
unfoldable pub add_middleware :
    {W : Type 0} → Middleware W → PublishingEngine W → Option (PublishingEngine W)
unfolding add
add_middleware m e = elim e.handler_fn [
  | some h ↦ none
  | none ↦ some (record e { mc = add m e.mc })
]

-- The section under the lock: the handler is built on the first call.
unfoldable pub prepare : {W : Type 0} → PublishingEngine W → Handler W × PublishingEngine W
prepare e = elim e.handler_fn [
  | some h ↦ (h, e)
  | none ↦ (wrap e.mc e.publisher, record e { handler_fn = some (wrap e.mc e.publisher) })
]

unfoldable pub publish :
    {W : Type 0} → PublishingEngine W → Run W → PublishingEngine W × Ret W (Unit {0})
unfolding prepare
publish e s = let (h, e') = prepare e in (e', h s)
