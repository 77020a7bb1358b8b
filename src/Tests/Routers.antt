-- ===== src/Tests/Routers.antt =====
-- Routers and subscription engines at concrete inputs.
use expedit.Prelude.{
  ℕ, ◌≡◌, refl, ◌≢◌, String, true, none, some, List, [], ◌∷◌, ◌++◌, lookup, insert, arith, eq_iff,
}
use expedit.Go.Value.{nil}
use expedit.Go.Context.{Context, background}
use expedit.Message.{Message}
use expedit.Handler.{Run, ok, Handler}
use expedit.Middleware.Chain.{Middleware, new_chain}
use expedit.Middleware.Chain.Order.{nest}
use expedit.Subscriber.Router.{
  SubscriptionRouter, RoutingKeyGenerator, route, handler_func, new_router, add_handler,
  with_ack_on_unknown_route,
}
use expedit.Subscriber.Router.Routes.{IsPointed, build_route, build_route-handler_func}
use expedit.Subscriber.Router.Unknown.{adds, unknown_acked}
use expedit.Subscriber.Engine.{new_subscription_engine, add_middleware, start}
use expedit.Subscriber.Engine.Lifecycle.{add_each, waiting, running, start_once}

abbrev empty : Message
empty = record { id = ""; metadata = some []; payload = nil; ctx = background }

abbrev at_rest : {W : Type 0} → W → Run W
at_rest w = record { message = empty; world = w; now = 0; next_scope = 0; cancelled = [] }

abbrev tag : ℕ → Middleware (List ℕ)
tag n inner s = inner (record s { world = s.world ++ n ∷ [] })

abbrev done : Handler (List ℕ)
done s = ok tt s

abbrev always_a : RoutingKeyGenerator (List ℕ)
always_a s = ("a", s)

abbrev bare : SubscriptionRouter (List ℕ)
bare = record {
  generator = always_a;
  builders = [];
  routes_by_type = [];
  default_route = none;
  ack_on_unknown_route = true;
}

a_not_b : ◌≢◌ {A = String} "a" "b"
a_not_b = ground (arith, eq_iff "a" "b")

-- A message whose key is its ID.
abbrev by_id : SubscriptionRouter (List ℕ)
by_id = record bare { generator = λ s. (s.message.id, s) }

by_id-IsPointed : IsPointed by_id
unfolding lookup
by_id-IsPointed key b e = cc

abbrev with_id : String → Run (List ℕ)
with_id id = record {
  message = record empty { id = id };
  world = [];
  now = 0;
  next_scope = 0;
  cancelled = [];
}

build_route-handler_func_example :
    (handler_func (build_route "a" (tag 1 ∷ tag 2 ∷ []) done by_id) (with_id "a")
      ≡ nest (tag 1 ∷ tag 2 ∷ []) done (with_id "a"))
    × (handler_func (build_route "a" (tag 1 ∷ tag 2 ∷ []) done by_id) (with_id "b")
        ≡ handler_func by_id (with_id "b"))
    × IsPointed (build_route "a" (tag 1 ∷ tag 2 ∷ []) done by_id)
build_route-handler_func_example =
    build_route-handler_func "a" (tag 1 ∷ tag 2 ∷ []) done by_id (with_id "a") (with_id "b")
      by_id-IsPointed refl a_not_b

-- A builder was added for the key "a", but never got a handler.
abbrev half_built : SubscriptionRouter (List ℕ)
half_built = record bare {
  builders = record { handler = none; mc = record { middlewares = [] } } ∷ [];
  routes_by_type = ("a", 0) ∷ [];
}

unknown_acked_example : handler_func half_built (at_rest []) ≡ ok tt (at_rest [])
unfolding new_router add_handler new_chain insert lookup route with_ack_on_unknown_route
unknown_acked_example =
    unknown_acked always_a (with_ack_on_unknown_route ∷ []) (adds "a" ∷ []) half_built (at_rest [])
      refl refl refl

abbrev receive : Context → Handler (List ℕ) → Handler (List ℕ)
receive ctx h s = h s

start_once_example :
    (add_each (some (new_subscription_engine receive bare)) (tag 1 ∷ tag 2 ∷ [])
      ≡ some (waiting receive bare (tag 1 ∷ tag 2 ∷ [])))
    × (start background (waiting receive bare (tag 1 ∷ tag 2 ∷ [])) (at_rest [])
        ≡ some (
          running receive bare (tag 1 ∷ tag 2 ∷ []),
          nest (tag 1 ∷ tag 2 ∷ []) (handler_func bare) (at_rest []),
        ))
    × (start background (running receive bare (tag 1 ∷ tag 2 ∷ [])) (at_rest []) ≡ none)
    × (add_middleware (tag 3) (running receive bare (tag 1 ∷ tag 2 ∷ [])) ≡ none)
start_once_example =
    start_once receive bare (tag 1 ∷ tag 2 ∷ []) (tag 3) background background (at_rest [])
      (at_rest [])
