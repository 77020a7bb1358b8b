-- ===== src/Tests/Publishers.antt =====
-- Publishers at concrete inputs.
use expedit.Prelude.{
  ℕ, String, ◌≡◌, refl, sym, ap, true, false, none, some, List, [], ◌∷◌, ◌++◌, lookup, insert,
}
use expedit.Go.Value.{new, nil, errors_join}
use expedit.Go.Context.{background}
use expedit.Message.{Message}
use expedit.Handler.{Run, Ret, ok, failed, Handler, final, error_of}
use expedit.Middleware.Chain.{Middleware}
use expedit.Middleware.Chain.Order.{nest}
use expedit.Publisher.Destinations.{
  Impl, Config, Destinations, no_destinations, err_closed, look, create, get_publisher, publish,
  close,
}
use expedit.Publisher.Destinations.Caching.{publishes, looks_up, used_each, get_publisher_twice}
use expedit.Publisher.Destinations.Closing.{
  Closed, names, failures, closed_refuses, close_closes_each,
}
use expedit.Publisher.Destinations.Concurrent.{System, call, look_up, make, Reach, start, next}
use expedit.Publisher.Destinations.Concurrent.Once.{Notes, times, one_publisher}
use expedit.Publisher.Engine.{PublishingEngine, new_publishing_engine, add_middleware}
use expedit.Publisher.Engine
use expedit.Publisher.Engine.Lifecycle.{add_each, unstarted, started, publish_nests}

abbrev empty : Message
empty = record { id = ""; metadata = some []; payload = nil; ctx = background }

abbrev at_rest : {W : Type 0} → W → Run W
at_rest w = record { message = empty; world = w; now = 0; next_scope = 0; cancelled = [] }

-- A publisher whose Close fails; its world is the log of what was closed.
abbrev stream : String → Impl (List Closed) ℕ
stream dest = record {
  close = λ s. failed (new dest) (record s { world = s.world ++ (dest, some (new dest)) ∷ [] });
  publish = λ ctx n s. ok n s;
  get_message_id = λ n. "7";
}

abbrev to_orders : Config (List Closed) ℕ
to_orders = record {
  routing_func = λ s. ok "orders" s;
  message_marshaller = λ s. ok 0 s;
  get_destination_publisher = λ dest s. ok (stream dest) s;
}

abbrev with_orders : Destinations (List Closed) ℕ
with_orders = record { publishers = ("orders", stream "orders") ∷ []; closed = false }

get_publisher_twice_example :
    get_publisher to_orders "orders"
      (used_each to_orders
        (looks_up "bills" (at_rest []) ∷ publishes (at_rest []) ∷ [])
        with_orders)
      (at_rest [])
    ≡ (
      used_each to_orders (looks_up "bills" (at_rest []) ∷ publishes (at_rest []) ∷ []) with_orders,
      ok (stream "orders") (at_rest []),
    )
unfolding get_publisher no_destinations insert lookup look create
get_publisher_twice_example =
    get_publisher_twice to_orders "orders" no_destinations with_orders (at_rest []) (at_rest [])
      (at_rest []) (stream "orders") (looks_up "bills" (at_rest []) ∷ publishes (at_rest []) ∷ [])
      refl

closed_refuses_example :
    (publish to_orders (close with_orders (at_rest [])).0 (at_rest [])
      ≡ ((close with_orders (at_rest [])).0, failed err_closed (at_rest [])))
    × (close (close with_orders (at_rest [])).0 (at_rest [])
        ≡ ((close with_orders (at_rest [])).0, ok tt (at_rest [])))
closed_refuses_example =
    closed_refuses to_orders with_orders (at_rest []) (at_rest []) (at_rest []) "orders" refl

abbrev two_streams : Destinations (List Closed) ℕ
two_streams = record { publishers = ("a", stream "a") ∷ ("b", stream "b") ∷ []; closed = false }

close_closes_each_example :
    (closed : List Closed) × ((final (close two_streams (at_rest [])).1).world ≡ [] ++ closed)
    × (names closed ≡ "a" ∷ "b" ∷ [])
    × (error_of (close two_streams (at_rest [])).1 ≡ errors_join (failures closed))
    × ((close two_streams (at_rest [])).0 ≡ record { publishers = []; closed = true })
close_closes_each_example =
    close_closes_each (λ w. w) two_streams (at_rest []) (λ s. (refl, refl), (λ s. (refl, refl), tt))
      refl

-- A factory that notes what it makes.
abbrev plain : Impl (List String) ℕ
plain = record { close = λ s. ok tt s; publish = λ ctx n s. ok n s; get_message_id = λ n. "7" }

abbrev noting : Config (List String) ℕ
noting = record {
  routing_func = λ s. ok "orders" s;
  message_marshaller = λ s. ok 0 s;
  get_destination_publisher = λ dest s. ok plain (record s { world = dest ∷ s.world });
}

noting-Notes : Notes (λ w. w) noting
noting-Notes = record {
  by_factory = λ dest s. refl;
  by_close = λ dest s t u p e. ap (λ r. (final ((made_in r).close u)).world) (sym e);
}
  where
    made_in : Ret (List String) (Impl (List String) ℕ) → Impl (List String) ℕ
    made_in (ok p t) = p
    made_in r = plain

-- Two goroutines find no publisher for a destination, and then both take the write lock.
abbrev racing : (s : System (List String) ℕ) × Reach noting (at_rest []) s
unfolding create get_publisher no_destinations insert lookup look
racing = (
  _,
  next
      (next
        (next
          (next (next (next start (call 1 "orders" refl)) (call 2 "orders" refl))
            (look_up 1 "orders" refl))
          (look_up 2 "orders" refl))
        (make 1 "orders" refl refl))
      (make 2 "orders" refl refl),
)

one_publisher_example : (plain ≡ plain) × (times "orders" ("orders" ∷ []) ≡ 1)
unfolding create get_publisher no_destinations insert lookup look
one_publisher_example =
    one_publisher (λ w. w) noting 1 2 "orders" plain plain noting-Notes refl racing.1 refl refl

abbrev tag : ℕ → Middleware (List ℕ)
tag n inner s = inner (record s { world = s.world ++ n ∷ [] })

abbrev sink : Handler (List ℕ)
sink s = ok tt s

publish_nests_example :
    (add_each (some (new_publishing_engine sink)) (tag 1 ∷ tag 2 ∷ [])
      ≡ some (unstarted sink (tag 1 ∷ tag 2 ∷ [])))
    × (Engine.publish (unstarted sink (tag 1 ∷ tag 2 ∷ [])) (at_rest [])
        ≡ (started sink (tag 1 ∷ tag 2 ∷ []), nest (tag 1 ∷ tag 2 ∷ []) sink (at_rest [])))
    × (add_middleware (tag 3) (started sink (tag 1 ∷ tag 2 ∷ [])) ≡ none)
    × (Engine.publish (started sink (tag 1 ∷ tag 2 ∷ [])) (at_rest (0 ∷ []))
        ≡ (started sink (tag 1 ∷ tag 2 ∷ []), nest (tag 1 ∷ tag 2 ∷ []) sink (at_rest (0 ∷ []))))
publish_nests_example =
    publish_nests sink (tag 1 ∷ tag 2 ∷ []) (tag 3) (at_rest []) (at_rest (0 ∷ []))
