-- ===== src/Amqp/Testrabbit/Routing/Cleaning.antt =====
-- Each queue of an exchange with routing keys is known by its key, and Delete reaches it.
use Prim.Native.String.{◌++◌ as ◌<>◌}
use expedit.Prelude.{
  ℕ, ◌≡◌, refl, sym, ap, ◌∙◌, subst, String, Bool, true, false, none, some, List, [], ◌∷◌, ◌++◌,
  append-nil, map, Map, lookup, insert, lookup-insert, ◌⊎◌, inl, inr, ◌==◌, if◌then◌else◌, eq_iff,
}
use mathlib.Core.List.{Memᴰ}
use mathlib.Core.List.Memᴰ
use expedit.Go.Value.{new}
use expedit.Go.Context.{background}
use expedit.Amqp.Testrabbit.{Env, done, call, Channel, joined, joined3, or_panic}
use expedit.Amqp.Testrabbit.Waiting.{wait_for_all}
use expedit.Amqp.Testrabbit.Exchange.{declare_exchange, queues_of, consume_found}
use expedit.Amqp.Testrabbit.Requests.{
  Request, declared, deleted, exchange_declared, exchange_deleted, log_of, noting,
}
use expedit.Amqp.Testrabbit.Requests.Logging.{Log, wait_for_all-IsQuiet}
use expedit.Amqp.Testrabbit.Requests.Giving.{
  Gives, then-Gives, imp-Gives, quietly-Gives, KeepsNames, declare_bound-Gives,
  declare_exchange-Gives,
}
use expedit.Amqp.Testrabbit.Requests.Deleting.{
  deletions, delete_mapped-Does, underscored, queues-lookup,
}
use expedit.Amqp.Testrabbit.Routing.{
  DirectRoutingExchange, declare_routes, create_direct_routing_exchange, delete, consume,
}

module _ {W D : Type 0} (show_duration : ℕ → String) (channel : Channel W D) (random_part : String)
    (exchange_name : String) where
  -- The queue of a routing key.
  abbrev pub queue_for : String → String
  queue_for key = joined3 exchange_name key random_part

  routed : List String → Map String → Map String
  unfolding insert
  routed [] m = m
  routed (key ∷ keys) m = routed keys (insert key (queue_for key) m)

  declare_routes-Gives :
      (full : String) (keys : List String) (m : Map String) (e : Env (Log W))
      → KeepsNames channel
      → Gives
          (λ mapping rs.
            (mapping ≡ routed keys m) × (rs ≡ map (λ key. declared (queue_for key)) keys))
          e
          (declare_routes show_duration (noting channel) random_part exchange_name full keys m e)
  unfolding declare_routes routed noting
  declare_routes-Gives full [] m e keeps = ([], sym (append-nil (log_of e)), (refl, refl))
  declare_routes-Gives full (key ∷ keys) m e keeps =
      then-Gives (λ x rs. (x ≡ queue_for key) × (rs ≡ declared (queue_for key) ∷ []))
        (λ mapping rs.
          (mapping ≡ routed (key ∷ keys) m)
          × (rs ≡ map (λ key. declared (queue_for key)) (key ∷ keys)))
        e _ _
        (declare_bound-Gives channel (queue_for key)
          (λ queue. channel.queue_bind queue key full false none) _ e keeps
          (underscored exchange_name _))
        (λ queue rs t (same, one).
          imp-Gives t
            (declare_routes show_duration (noting channel) random_part exchange_name full keys
              (insert key queue m) t)
            (λ mapping ss (fills, asked). (
              fills ∙ ap (λ x. routed keys (insert key x m)) same,
              ap (λ x. x ++ ss) one ∙ ap (λ x. declared (queue_for key) ∷ x) asked,
            ))
            (declare_routes-Gives full keys (insert key queue m) t keeps))

  lookup-insert_routed :
      (key k : String) (m : Map String)
      → (k ≡ key) ⊎ (lookup key m ≡ some (queue_for key))
      → lookup key (insert k (queue_for k) m) ≡ some (queue_for key)
  lookup-insert_routed key k m o = lookup-insert k key (queue_for k) m ∙ tested (k == key) refl o
    where
      tested :
          (b : Bool)
          → (k == key) ≡ b
          → (k ≡ key) ⊎ (lookup key m ≡ some (queue_for key))
          → (if b then some (queue_for k) else lookup key m) ≡ some (queue_for key)
      tested true e o' = ap (λ x. some (queue_for x)) ((eq_iff k key).0 e)
      tested false e (inl same) = let other = (eq_iff k key).1 same in cc
      tested false e (inr h) = h

  lookup-routed :
      (key : String) (keys : List String) (m : Map String)
      → Memᴰ key keys ⊎ (lookup key m ≡ some (queue_for key))
      → lookup key (routed keys m) ≡ some (queue_for key)
  unfolding routed
  lookup-routed key [] m (inl i) = absurd (Memᴰ.not-nil i)
  lookup-routed key [] m (inr h) = h
  lookup-routed key (k ∷ keys) m (inl (Memᴰ.head e)) =
      lookup-routed key keys (insert k (queue_for k) m)
        (inr (lookup-insert_routed key k m (inl (sym e))))
  lookup-routed key (k ∷ keys) m (inl (Memᴰ.tail i)) =
      lookup-routed key keys (insert k (queue_for k) m) (inl i)
  lookup-routed key (k ∷ keys) m (inr h) =
      lookup-routed key keys (insert k (queue_for k) m) (inr (lookup-insert_routed key k m (inr h)))

  created : List String → DirectRoutingExchange (Log W) D
  created keys = record {
    channel = noting channel;
    exchange_name = joined exchange_name random_part;
    routing_to_queue = routed keys [];
  }

  -- The requests of a creation that succeeds.
  abbrev pub declarations : List String → List Request
  declarations keys =
      exchange_declared (joined exchange_name random_part)
      ∷ map (λ key. declared (queue_for key)) keys

  create-Gives :
      (keys : List String) (e : Env (Log W))
      → KeepsNames channel
      → Gives
          (λ d rs. (d ≡ created keys) × (rs ≡ declarations keys))
          e
          (create_direct_routing_exchange show_duration
            (noting channel)
            random_part
            exchange_name
            keys
            e)
  unfolding create_direct_routing_exchange created
  create-Gives keys e keeps =
      let full = joined exchange_name random_part in
      then-Gives (λ x rs. rs ≡ exchange_declared full ∷ [])
        (λ d rs. (d ≡ created keys) × (rs ≡ declarations keys)) e
        (declare_exchange (noting channel) full "direct" e) _
        (declare_exchange-Gives channel full "direct" e)
        (λ x rs t one.
          then-Gives
            (λ mapping ss.
              (mapping ≡ routed keys []) × (ss ≡ map (λ key. declared (queue_for key)) keys))
            (λ d ss. (d ≡ created keys) × (rs ++ ss ≡ declarations keys)) t
            (declare_routes show_duration (noting channel) random_part exchange_name full keys [] t)
            _ (declare_routes-Gives full keys [] t keeps)
            (λ mapping ss u (fills, asked).
              quietly-Gives (λ d us. (d ≡ created keys) × (rs ++ (ss ++ us) ≡ declarations keys)) u
                (wait_for_all show_duration (noting channel) (queues_of mapping) u) _
                (wait_for_all-IsQuiet show_duration channel (queues_of mapping) u)
                (λ y v. (
                  [],
                  sym (append-nil (log_of v)),
                  (
                    ap
                        (λ m. record {
                          channel = noting channel;
                          exchange_name = full;
                          routing_to_queue = m;
                        })
                        fills,
                    ap (λ x. rs ++ x) (append-nil ss ∙ asked)
                        ∙ ap (λ x. x ++ map (λ key. declared (queue_for key)) keys) one,
                  ),
                ))))

  -- Delete of the exchange at that state, and Consume of that key.
  abbrev pub Reaches : String → DirectRoutingExchange (Log W) D → Env (Log W) → Type 0
  Reaches key d u =
      (v : Env (Log W)) × (ds : List Request) × (delete d u ≡ done tt v)
      × (log_of v ≡ log_of u ++ ds)
      × Memᴰ (deleted (queue_for key)) ds
      × Memᴰ (exchange_deleted (joined exchange_name random_part)) ds
      × (consume d key
          ≡ or_panic
              (call (d.channel.consume background (queue_for key) "" false true false false)))

  created-Reaches :
      (keys : List String) (key : String) (u : Env (Log W))
      → Memᴰ key keys
      → Reaches key (created keys) u
  unfolding delete consume created consume_found
  created-Reaches keys key u i =
      let full = joined exchange_name random_part in
      let m = routed keys [] in
      let found = lookup-routed key keys [] (inl i) in
      let (v, ends, logged) =
        delete_mapped-Does channel full m u (underscored exchange_name random_part) in
      (
        v,
        deletions channel full (queues_of m),
        ends,
        logged,
        Memᴰ.append_left _ (Memᴰ.map deleted (queues-lookup (queue_for key) key m found)),
        Memᴰ.append_right (map deleted (queues_of m)) (Memᴰ.head refl),
        ap (λ o. consume_found (noting channel) (λ err. err) (new ("no queue for route " <> key)) o)
            found,
      )

  -- When CreateDirectRoutingExchange has succeeded on a channel that gives queues the names that were
  -- asked for, it has declared the exchange and one queue for each routing key, and nothing else. A
  -- Delete at any later time returns, whatever the channel answers, and has then asked for the deletion
  -- of the queue of each routing key and of the exchange. Consume of a routing key consumes from its
  -- queue.
  pub routing_cleans_up :
      (keys : List String) (key : String) (e t u : Env (Log W))
      (d : DirectRoutingExchange (Log W) D)
      → KeepsNames channel
      → create_direct_routing_exchange show_duration
          (noting channel)
          random_part
          exchange_name
          keys
          e
        ≡ done d t
      → Memᴰ key keys
      → (log_of t ≡ log_of e ++ declarations keys) × Reaches key d u
  routing_cleans_up keys key e t u d keeps h i =
      let (rs, logged, (same, asked)) =
        subst (Gives (λ x rs. (x ≡ created keys) × (rs ≡ declarations keys)) e) h
          (create-Gives keys e keeps) in
      (
        logged ∙ ap (λ x. log_of e ++ x) asked,
        subst (λ x. Reaches key x u) (sym same) (created-Reaches keys key u i),
      )
