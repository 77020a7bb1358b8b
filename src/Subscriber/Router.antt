-- ===== src/Subscriber/Router.antt =====
-- core/subscriber/router.go. A router's routes point to builders, which their owners go on changing,
-- so the builders stand in a store, and a route is an index into it.
pub mod Routes
pub mod Unknown
use Prim.Native.String.{◌++◌}
use expedit.Prelude.{
  ℕ, String, Bool, true, false, Option, none, some, List, [], ◌∷◌, ◌++◌ as append, Map, lookup,
  insert, length, get_elem?, set, if◌then◌else◌,
}
use expedit.Go.Value.{Value, nil, str}
use expedit.Message.{entries}
use expedit.Handler.{Run, ok, panicked, Handler}
use expedit.Middleware.Chain.{Middleware, Chain, new_chain, add, wrap}

abbrev pub RoutingKeyGenerator : Type 0 → Type 0
RoutingKeyGenerator W = Run W → String × Run W

-- What a map read gives for a missing key: the nil interface.
abbrev pub or_nil : Option Value → Value
or_nil none = nil
or_nil (some v) = v

-- `sprint` is fmt's %v.
unfoldable pub route_from_metadata_key :
    {W : Type 0} → (Value → String) → String → RoutingKeyGenerator W
route_from_metadata_key sprint key s =
    (sprint (or_nil (lookup key (entries s.message.metadata))), s)

pub record HandlerBuilder (W : Type 0) : Type 0 where
  pub handler : Option (Handler W)
  pub mc : Chain W

pub record SubscriptionRouter (W : Type 0) : Type 0 where
  pub generator : RoutingKeyGenerator W
  pub builders : List (HandlerBuilder W)
  pub routes_by_type : Map ℕ
  pub default_route : Option (Handler W)
  pub ack_on_unknown_route : Bool

-- The options are functions on SubscriptionRouterOptions, which is the one flag.
abbrev pub RouterOption : Type 0
RouterOption = Bool → Bool

unfoldable pub with_ack_on_unknown_route : RouterOption
with_ack_on_unknown_route flag = true

apply_options : List RouterOption → Bool → Bool
apply_options [] flag = flag
apply_options (opt ∷ opts) flag = apply_options opts (opt flag)

unfoldable pub new_router :
    {W : Type 0} → RoutingKeyGenerator W → List RouterOption → SubscriptionRouter W
unfolding apply_options
new_router g opts = record {
  generator = g;
  builders = [];
  routes_by_type = [];
  default_route = none;
  ack_on_unknown_route = apply_options opts false;
}

-- `AddHandler`: a new builder, which replaces the one of an earlier call for the value. The result's
-- second part points to it.
unfoldable pub add_handler : {W : Type 0} → String → SubscriptionRouter W → SubscriptionRouter W × ℕ
unfolding new_chain
add_handler value r = (
  record r {
    builders = append r.builders (record { handler = none; mc = new_chain } ∷ []);
    routes_by_type = insert value (length r.builders) r.routes_by_type;
  },
  length r.builders,
)

abbrev set_builder :
    {W : Type 0}
    → ℕ
    → (HandlerBuilder W → HandlerBuilder W)
    → SubscriptionRouter W
    → Option (HandlerBuilder W)
    → SubscriptionRouter W
set_builder b f r none = r
set_builder b f r (some hb) = record r { builders = set r.builders b (f hb) }

-- A method call on the builder that `b` points to.
abbrev change :
    {W : Type 0}
    → ℕ
    → (HandlerBuilder W → HandlerBuilder W)
    → SubscriptionRouter W
    → SubscriptionRouter W
change b f r = set_builder b f r (get_elem? r.builders b)

-- HandlerBuilder.AddMiddleware
unfoldable pub add_middleware :
    {W : Type 0} → ℕ → Middleware W → SubscriptionRouter W → SubscriptionRouter W
unfolding add
add_middleware b m = change b (λ hb. record hb { mc = add m hb.mc })

-- HandlerBuilder.Handle
unfoldable pub handle : {W : Type 0} → ℕ → Handler W → SubscriptionRouter W → SubscriptionRouter W
handle b h = change b (λ hb. record hb { handler = some h })

-- `none` is a panic: a default handler set twice, or one beside AckOnUnknownRoute.
unfoldable pub add_default_handler :
    {W : Type 0} → Handler W → SubscriptionRouter W → Option (SubscriptionRouter W)
add_default_handler h r = elim r.default_route [
  | some h' ↦ none
  | none ↦ if r.ack_on_unknown_route then none else some (record r { default_route = some h })
]

-- The handler of a builder, if it has one, inside its middlewares.
abbrev pub built : {W : Type 0} → Option (HandlerBuilder W) → Option (Handler W)
built none = none
built (some hb) = elim hb.handler [ none ↦ none | some h ↦ some (wrap hb.mc h) ]

abbrev pub pointed {ℓ} : {A : Type ℓ} → List A → Option ℕ → Option A
pointed xs none = none
pointed xs (some b) = get_elem? xs b

-- The handler of a routing key.
unfoldable pub route : {W : Type 0} → SubscriptionRouter W → String → Option (Handler W)
route r key = built (pointed r.builders (lookup key r.routes_by_type))

abbrev pub no_route : String → Value
no_route key = str ("no handler found for route [" ++ (key ++ "], and no default route defined."))

-- What `HandlerFunc` does for a message without a route.
unfoldable pub unroutable : {W : Type 0} → SubscriptionRouter W → String → Handler W
unroutable r key s = elim r.default_route [
  | some h ↦ h s
  | none ↦ if r.ack_on_unknown_route then ok tt s else panicked (no_route key) s
]

unfoldable pub handler_func : {W : Type 0} → SubscriptionRouter W → Handler W
unfolding route unroutable
handler_func r s =
    let (key, s') = r.generator s in
    elim (route r key) [ some h ↦ h s' | none ↦ unroutable r key s' ]
