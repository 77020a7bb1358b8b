-- ===== src/Subscriber/Router/Unknown.antt =====
-- Messages without a route, for every router that a client can build.
use expedit.Prelude.{
  ℕ, String, ◌≡◌, refl, Option, none, some, some_inj, List, [], ◌∷◌, true, get_elem?, arith, subst,
}
use expedit.Handler.{Run, Handler, ok}
use expedit.Middleware.Chain.{Middleware}
use expedit.Subscriber.Router.{
  HandlerBuilder, SubscriptionRouter, RoutingKeyGenerator, RouterOption, new_router, add_handler,
  set_builder, add_middleware, handle, add_default_handler, route, handler_func,
}

-- A call of the router's or of a builder's methods.
pub data Op (W : Type 0) : Type 0 where
  adds : String → Op W
  wraps : ℕ → Middleware W → Op W
  handles : ℕ → Handler W → Op W
  defaults : Handler W → Op W

-- `none` is a panic.
abbrev pub apply : {W : Type 0} → Op W → SubscriptionRouter W → Option (SubscriptionRouter W)
apply (adds key) r = some (add_handler key r).0
apply (wraps b m) r = some (add_middleware b m r)
apply (handles b h) r = some (handle b h r)
apply (defaults h) r = add_default_handler h r

abbrev then_apply :
    {W : Type 0} → Option (SubscriptionRouter W) → Op W → Option (SubscriptionRouter W)
then_apply none op = none
then_apply (some r) op = apply op r

-- The calls of the list, the last first.
abbrev pub apply_all :
    {W : Type 0} → List (Op W) → SubscriptionRouter W → Option (SubscriptionRouter W)
apply_all [] r = some r
apply_all (op ∷ ops) r = then_apply (apply_all ops r) op

-- AckOnUnknownRoute and a default handler exclude one another.
abbrev pub IsExclusive : {W : Type 0} → SubscriptionRouter W → Type 0
IsExclusive r = r.ack_on_unknown_route ≡ true → r.default_route ≡ none

module _ {W : Type 0} where
  set_builder-IsExclusive :
      (b : ℕ) (f : HandlerBuilder W → HandlerBuilder W) (r : SubscriptionRouter W)
      (o : Option (HandlerBuilder W))
      → IsExclusive r
      → IsExclusive (set_builder b f r o)
  set_builder-IsExclusive b f r none v = v
  set_builder-IsExclusive b f r (some hb) v = v

  apply-IsExclusive :
      (op : Op W) (r r' : SubscriptionRouter W)
      → IsExclusive r
      → apply op r ≡ some r'
      → IsExclusive r'
  unfolding add_handler add_middleware handle add_default_handler
  apply-IsExclusive (adds key) r r' v e = subst IsExclusive (some_inj e) v
  apply-IsExclusive (wraps b m) r r' v e =
      subst IsExclusive (some_inj e) (set_builder-IsExclusive b _ r (get_elem? r.builders b) v)
  apply-IsExclusive (handles b h) r r' v e =
      subst IsExclusive (some_inj e) (set_builder-IsExclusive b _ r (get_elem? r.builders b) v)
  apply-IsExclusive (defaults h) r r' v e = ground arith

  apply_all-IsExclusive :
      (ops : List (Op W)) (r r' : SubscriptionRouter W)
      → IsExclusive r
      → apply_all ops r ≡ some r'
      → IsExclusive r'
  apply_all-IsExclusive [] r r' v e = subst IsExclusive (some_inj e) v
  apply_all-IsExclusive (op ∷ ops) r r' v e =
      before (apply_all ops r) (apply_all-IsExclusive ops r) e
    where
      before :
          (o : Option (SubscriptionRouter W))
          → ((x : SubscriptionRouter W) → IsExclusive r → o ≡ some x → IsExclusive x)
          → then_apply o op ≡ some r'
          → IsExclusive r'
      before none ih e = cc
      before (some x) ih e = apply-IsExclusive op x r' (ih x v refl) e

-- However a client builds a router, if its option AckOnUnknownRoute is on, then a message whose key
-- leads to no handler is acked: the router's handler returns nil and runs no other handler.
pub unknown_acked :
    {W : Type 0} (g : RoutingKeyGenerator W) (opts : List RouterOption) (ops : List (Op W))
    (r : SubscriptionRouter W) (s : Run W)
    → apply_all ops (new_router g opts) ≡ some r
    → r.ack_on_unknown_route ≡ true
    → route r (r.generator s).0 ≡ none
    → handler_func r s ≡ ok tt (r.generator s).1
unfolding handler_func new_router
unknown_acked g opts ops r s e acks lost =
    let no_default = apply_all-IsExclusive ops (new_router g opts) r (λ x. refl) e acks in
    ground arith
