-- ===== src/Subscriber/Router/Routes.antt =====
-- What a router's routes lead to.
use expedit.Prelude.{
  ℕ, ◌<◌, String, ◌≡◌, refl, ap, sym, subst, ◌∙◌, ◌≢◌, Option, none, some, List, [], ◌∷◌, ◌++◌,
  lookup, insert, lookup-insert, lookup-insert_self, length, length-append, get_elem?, set,
  get_elem?-append_length, get_elem?-append_left, str_ne, arith, if◌then◌else◌, Bool, append-nil,
  append_assoc,
}
use expedit.Handler.{Run, Ret, Handler}
use expedit.Middleware.Chain.{Middleware, new_chain, add, wrap}
use expedit.Middleware.Chain.Order.{nest, wrap-nest}
use expedit.Subscriber.Router.{
  HandlerBuilder, SubscriptionRouter, add_handler, set_builder, change, add_middleware, handle,
  built, pointed, route, unroutable, handler_func,
}

-- Every route points to a builder.
abbrev pub IsPointed : {W : Type 0} → SubscriptionRouter W → Type 0
IsPointed r = (key : String) (b : ℕ) → lookup key r.routes_by_type ≡ some b → b < length r.builders

-- The calls by which a client builds a route: AddHandler, AddMiddleware for each middleware, Handle.
add_all : {W : Type 0} → ℕ → List (Middleware W) → SubscriptionRouter W → SubscriptionRouter W
add_all b [] r = r
add_all b (m ∷ ms) r = add_all b ms (add_middleware b m r)

pub build_route :
    {W : Type 0}
    → String
    → List (Middleware W)
    → Handler W
    → SubscriptionRouter W
    → SubscriptionRouter W
build_route key ms h r = let (r', b) = add_handler key r in handle b h (add_all b ms r')

set_last : {A : Type 0} (xs : List A) (x y : A) → set (xs ++ x ∷ []) (length xs) y ≡ xs ++ y ∷ []
set_last [] x y = refl
set_last (z ∷ xs) x y = ap (λ l. z ∷ l) (set_last xs x y)

module _ {W : Type 0} where
  -- The router with one more builder, as `add_handler` leaves it and the builder's methods change it.
  abbrev with_builder : String → HandlerBuilder W → SubscriptionRouter W → SubscriptionRouter W
  with_builder key hb r = record r {
    builders = r.builders ++ hb ∷ [];
    routes_by_type = insert key (length r.builders) r.routes_by_type;
  }

  change-with_builder :
      (key : String) (hb : HandlerBuilder W) (f : HandlerBuilder W → HandlerBuilder W)
      (r : SubscriptionRouter W)
      → change (length r.builders) f (with_builder key hb r) ≡ with_builder key (f hb) r
  change-with_builder key hb f r =
      ap (set_builder (length r.builders) f (with_builder key hb r))
        (get_elem?-append_length r.builders hb [])
      ∙ ap (λ bs. record (with_builder key hb r) { builders = bs }) (set_last r.builders hb (f hb))

  add_all-with_builder :
      (key : String) (ms : List (Middleware W)) (o : Option (Handler W))
      (before : List (Middleware W)) (r : SubscriptionRouter W)
      → add_all
          (length r.builders)
          ms
          (with_builder key (record { handler = o; mc = record { middlewares = before } }) r)
        ≡ with_builder key (record { handler = o; mc = record { middlewares = before ++ ms } }) r
  unfolding add_all add_middleware add
  add_all-with_builder key [] o before r =
      ap (λ l. with_builder key (record { handler = o; mc = record { middlewares = l } }) r)
        (sym (append-nil before))
  add_all-with_builder key (m ∷ ms) o before r =
      ap (add_all (length r.builders) ms) (
        change-with_builder key (record { handler = o; mc = record { middlewares = before } })
          (λ hb. record hb { mc = add m hb.mc }) r)
      ∙ add_all-with_builder key ms o (before ++ m ∷ []) r
      ∙ ap (λ l. with_builder key (record { handler = o; mc = record { middlewares = l } }) r)
          (append_assoc before (m ∷ []) ms)

  build_route_lem :
      (key : String) (ms : List (Middleware W)) (h : Handler W) (r : SubscriptionRouter W)
      → build_route key ms h r
        ≡ with_builder key (record { handler = some h; mc = record { middlewares = ms } }) r
  unfolding build_route add_handler new_chain handle
  build_route_lem key ms h r =
      ap (handle (length r.builders) h) (add_all-with_builder key ms none [] r)
      ∙ change-with_builder key (record { handler = none; mc = record { middlewares = ms } })
          (λ hb. record hb { handler = some h }) r

  built_at :
      (r : SubscriptionRouter W) (key : String) (b : ℕ) (hb : HandlerBuilder W)
      → lookup key r.routes_by_type ≡ some b
      → get_elem? r.builders b ≡ some hb
      → route r key ≡ built (some hb)
  unfolding route
  built_at r key b hb e f = ap (λ o. built (pointed r.builders o)) e ∙ ap built f

  -- A route into the old builders is not touched by a new one at the end.
  pointed-append :
      (xs : List (HandlerBuilder W)) (x : HandlerBuilder W) (o : Option ℕ)
      → ((b : ℕ) → o ≡ some b → b < length xs)
      → pointed (xs ++ x ∷ []) o ≡ pointed xs o
  pointed-append xs x none h = refl
  pointed-append xs x (some b) h = get_elem?-append_left xs (x ∷ []) b (h b refl)

  with_builder-routes :
      (key : String) (hb : HandlerBuilder W) (r : SubscriptionRouter W)
      → IsPointed r
      → (route (with_builder key hb r) key ≡ built (some hb))
        × ((other : String) → key ≢ other → route (with_builder key hb r) other ≡ route r other)
        × IsPointed (with_builder key hb r)
  unfolding route
  with_builder-routes key hb r v = (
    built_at (with_builder key hb r) key (length r.builders) hb
        (lookup-insert_self key (length r.builders) r.routes_by_type)
        (get_elem?-append_length r.builders hb []),
    λ other d.
        ap (λ o. built (pointed (r.builders ++ hb ∷ []) o)) (elsewhere other d)
        ∙ ap built (pointed-append r.builders hb (lookup other r.routes_by_type) (v other)),
    still_pointed,
  )
    where
      elsewhere :
          (other : String)
          → key ≢ other
          → lookup other (insert key (length r.builders) r.routes_by_type)
            ≡ lookup other r.routes_by_type
      elsewhere other d =
          lookup-insert key other (length r.builders) r.routes_by_type
          ∙ ap (λ (t : Bool). if t then some (length r.builders) else lookup other r.routes_by_type)
              (str_ne key other d)

      still_pointed : IsPointed (with_builder key hb r)
      still_pointed k b e = ground (
        arith,
        lookup-insert key k (length r.builders) r.routes_by_type,
        v k b,
        length-append r.builders (hb ∷ []),
      )

  -- Only its routes tell a router from another that was made from it by `with_builder`.
  handler_func-with_builder :
      (key : String) (hb : HandlerBuilder W) (r : SubscriptionRouter W) (s : Run W)
      (o : Option (Handler W))
      → route (with_builder key hb r) (r.generator s).0 ≡ o
      → handler_func (with_builder key hb r) s ≡ (elim o [
        | some h ↦ h (r.generator s).1
        | none ↦ unroutable r (r.generator s).0 (r.generator s).1
      ])
  unfolding handler_func unroutable
  handler_func-with_builder key hb r s o e =
      ap
        (λ x. elim x as (λ y. Ret W (Unit {0})) [
          | some h ↦ h (r.generator s).1
          | none ↦ unroutable r (r.generator s).0 (r.generator s).1
        ])
        e

  -- After a client has built a route for a key, a message with the key goes through its middlewares,
  -- the first outermost, to its handler, whatever route the key had before and whether or not there is
  -- a default route; and what becomes of a message with any other key is what it was, with a route or
  -- without one. Every route of the router pointed to a builder, and still does.
  pub build_route-handler_func :
      (key : String) (ms : List (Middleware W)) (h : Handler W) (r : SubscriptionRouter W)
      (s t : Run W)
      → IsPointed r
      → key ≡ (r.generator s).0
      → key ≢ (r.generator t).0
      → (handler_func (build_route key ms h r) s ≡ nest ms h (r.generator s).1)
        × (handler_func (build_route key ms h r) t ≡ handler_func r t)
        × IsPointed (build_route key ms h r)
  unfolding handler_func unroutable
  build_route-handler_func key ms h r s t v e d =
      let same = build_route_lem key ms h r in
      let hb : HandlerBuilder W = record { handler = some h; mc = record { middlewares = ms } } in
      let (here, others, points) = with_builder-routes key hb r v in
      (
        ap (λ x. handler_func x s) same
            ∙ handler_func-with_builder key hb r s (some (wrap hb.mc h))
                (ap (route (with_builder key hb r)) (sym e) ∙ here)
            ∙ ap (λ (f : Handler W). f (r.generator s).1)
                (wrap-nest (record { middlewares = ms }) h),
        ap (λ x. handler_func x t) same
            ∙ handler_func-with_builder key hb r t (route r (r.generator t).0)
                (others (r.generator t).0 d),
        subst IsPointed (sym same) points,
      )
