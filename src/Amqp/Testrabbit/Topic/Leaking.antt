-- ===== src/Amqp/Testrabbit/Topic/Leaking.antt =====
-- The queues of a topic exchange that Delete reaches.
use expedit.Prelude.{
  ℕ, suc, ◌+◌, ◌≡◌, refl, sym, ap, ◌∙◌, subst, String, false, none, List, [], ◌∷◌, ◌++◌, append-nil,
  length, Map, lookup, insert, ◌↔◌, arith,
}
use mathlib.Core.List.{Memᴰ}
use mathlib.Core.List.Memᴰ
use expedit.Amqp.Testrabbit.{Env, done, Channel, joined}
use expedit.Amqp.Testrabbit.Waiting.{wait_for_all}
use expedit.Amqp.Testrabbit.Exchange.{declare_exchange, queues_of}
use expedit.Amqp.Testrabbit.Requests.{Request, declared, deleted, exchange_declared, log_of, noting}
use expedit.Amqp.Testrabbit.Requests.Logging.{Log, wait_for_all-IsQuiet}
use expedit.Amqp.Testrabbit.Requests.Giving.{
  Gives, then-Gives, imp-Gives, quietly-Gives, KeepsNames, declare_bound-Gives,
  declare_exchange-Gives,
}
use expedit.Amqp.Testrabbit.Requests.Deleting.{
  deletions, delete_mapped-Does, underscored, queues-lookup, lookup-queues, deleted-deletions,
}
use expedit.Amqp.Testrabbit.Topic.{TopicExchange, declare_patterns, create_topic_exchange, delete}
use expedit.Amqp.Testrabbit.Topic.Mapping.{
  queue_at, mapped, mapped-IsMap, lookup-last, lookup-repeated, queue_at-named,
}

module _ {W D : Type 0} (show_duration : ℕ → String) (channel : Channel W D) (random_part : String)
    (exchange_name : String) where
  -- The declarations of queues from the index on.
  abbrev asked_from : ℕ → List String → List Request
  asked_from i [] = []
  asked_from i (pattern ∷ patterns) =
      declared (queue_at exchange_name random_part i) ∷ asked_from (suc i) patterns

  asked-Memᴰ :
      (i : ℕ) (xs : List String) (p : String) (ys : List String)
      → Memᴰ
          (declared (queue_at exchange_name random_part (i + length xs)))
          (asked_from i (xs ++ p ∷ ys))
  asked-Memᴰ i [] p ys =
      Memᴰ.head (ap (λ n. declared (queue_at exchange_name random_part n)) (omega arith))
  asked-Memᴰ i (x ∷ xs) p ys = Memᴰ.tail (
      subst
        (λ n.
          Memᴰ (declared (queue_at exchange_name random_part n))
            (asked_from (suc i) (xs ++ p ∷ ys)))
        (omega arith) (asked-Memᴰ (suc i) xs p ys))

  declare_patterns-Gives :
      (full : String) (i : ℕ) (patterns : List String) (m : Map String) (e : Env (Log W))
      → KeepsNames channel
      → Gives
          (λ mapping rs.
            (mapping ≡ mapped exchange_name random_part i patterns m)
            × (rs ≡ asked_from i patterns))
          e
          (declare_patterns show_duration
            (noting channel)
            random_part
            exchange_name
            full
            i
            patterns
            m
            e)
  unfolding declare_patterns mapped noting
  declare_patterns-Gives full i [] m e keeps = ([], sym (append-nil (log_of e)), (refl, refl))
  declare_patterns-Gives full i (p ∷ patterns) m e keeps =
      let queue_i = queue_at exchange_name random_part i in
      then-Gives (λ x rs. (x ≡ queue_i) × (rs ≡ declared queue_i ∷ []))
        (λ mapping rs.
          (mapping ≡ mapped exchange_name random_part i (p ∷ patterns) m)
          × (rs ≡ asked_from i (p ∷ patterns)))
        e _ _
        (declare_bound-Gives channel queue_i (λ queue. channel.queue_bind queue p full false none) _
          e keeps (queue_at-named exchange_name random_part i))
        (λ queue rs t (same, one).
          imp-Gives t
            (declare_patterns show_duration (noting channel) random_part exchange_name full (suc i)
              patterns (insert p queue m) t)
            (λ mapping ss (fills, asked). (
              fills
                  ∙ ap (λ x. mapped exchange_name random_part (suc i) patterns (insert p x m)) same,
              ap (λ x. x ++ ss) one ∙ ap (λ x. declared queue_i ∷ x) asked,
            ))
            (declare_patterns-Gives full (suc i) patterns (insert p queue m) t keeps))

  created : List String → TopicExchange (Log W) D
  created patterns = record {
    channel = noting channel;
    exchange_name = joined exchange_name random_part;
    pattern_to_queue = mapped exchange_name random_part 0 patterns [];
  }

  -- The requests of a creation that succeeds.
  abbrev declarations : List String → List Request
  declarations patterns =
      exchange_declared (joined exchange_name random_part) ∷ asked_from 0 patterns

  create-Gives :
      (patterns : List String) (e : Env (Log W))
      → KeepsNames channel
      → Gives
          (λ d rs. (d ≡ created patterns) × (rs ≡ declarations patterns))
          e
          (create_topic_exchange show_duration
            (noting channel)
            random_part
            exchange_name
            patterns
            e)
  unfolding create_topic_exchange created
  create-Gives patterns e keeps =
      let full = joined exchange_name random_part in
      let Q : TopicExchange (Log W) D → List Request → Type 0 =
        λ d rs. (d ≡ created patterns) × (rs ≡ declarations patterns) in
      then-Gives (λ x rs. rs ≡ exchange_declared full ∷ []) Q e
        (declare_exchange (noting channel) full "topic" e) _
        (declare_exchange-Gives channel full "topic" e)
        (λ x rs t one.
          then-Gives
            (λ mapping ss.
              (mapping ≡ mapped exchange_name random_part 0 patterns [])
              × (ss ≡ asked_from 0 patterns))
            (λ d ss. Q d (rs ++ ss)) t
            (declare_patterns show_duration (noting channel) random_part exchange_name full 0
              patterns [] t)
            _ (declare_patterns-Gives full 0 patterns [] t keeps)
            (λ mapping ss u (fills, asked).
              quietly-Gives (λ d us. Q d (rs ++ (ss ++ us))) u
                (wait_for_all show_duration (noting channel) (queues_of mapping) u) _
                (wait_for_all-IsQuiet show_duration channel (queues_of mapping) u)
                (λ y v. (
                  [],
                  sym (append-nil (log_of v)),
                  (
                    ap
                        (λ m. record {
                          channel = noting channel;
                          exchange_name = full;
                          pattern_to_queue = m;
                        })
                        fills,
                    ap (λ x. rs ++ x) (append-nil ss ∙ asked)
                        ∙ ap (λ x. x ++ asked_from 0 patterns) one,
                  ),
                ))))

  -- The queue of a pattern and Delete at that state, by whether the pattern is among the `later` ones.
  abbrev pub Deletes :
      String → String → List String → TopicExchange (Log W) D → Env (Log W) → Type 0
  Deletes queue pattern later d u =
      (v : Env (Log W)) × (ds : List Request) × (delete d u ≡ done tt v)
      × (log_of v ≡ log_of u ++ ds)
      × (Memᴰ (deleted queue) ds ↔ (¬ Memᴰ pattern later))

  created-Deletes :
      (xs : List String) (p : String) (ys : List String) (u : Env (Log W))
      → Deletes (queue_at exchange_name random_part (length xs)) p ys (created (xs ++ p ∷ ys)) u
  unfolding delete created lookup
  created-Deletes xs p ys u =
      let full = joined exchange_name random_part in
      let q = queue_at exchange_name random_part (length xs) in
      let m = mapped exchange_name random_part 0 (xs ++ p ∷ ys) [] in
      let (v, ends, logged) =
        delete_mapped-Does channel full m u (underscored exchange_name random_part) in
      (
        v,
        deletions channel full (queues_of m),
        ends,
        logged,
        (
          λ i again.
              let (k, found) =
                lookup-queues q m (mapped-IsMap exchange_name random_part 0 (xs ++ p ∷ ys) [] tt)
                  (deleted-deletions q full (queues_of m) i) in
              lookup-repeated exchange_name random_part xs p ys k again found,
          λ other. Memᴰ.append_left _ (
              Memᴰ.map deleted
                (queues-lookup q p m (lookup-last exchange_name random_part xs p ys other))),
        ),
      )

  -- When CreateTopicExchange has succeeded on a channel that gives queues the names that were asked
  -- for, it has declared a queue for each of its patterns, also for one that comes again. A Delete at
  -- any later time returns, whatever the channel answers; it has asked for the deletion of the queue of
  -- a pattern if and only if the same pattern does not come again behind it.
  pub topic_leaks :
      (xs : List String) (p : String) (ys : List String) (e t u : Env (Log W))
      (d : TopicExchange (Log W) D)
      → KeepsNames channel
      → create_topic_exchange show_duration
          (noting channel)
          random_part
          exchange_name
          (xs ++ p ∷ ys)
          e
        ≡ done d t
      → (rs : List Request) × (log_of t ≡ log_of e ++ rs)
        × Memᴰ (declared (queue_at exchange_name random_part (length xs))) rs
        × Deletes (queue_at exchange_name random_part (length xs)) p ys d u
  topic_leaks xs p ys e t u d keeps h =
      let patterns = xs ++ p ∷ ys in
      let q = queue_at exchange_name random_part (length xs) in
      let (rs, logged, (same, asked)) =
        subst (Gives (λ x rs. (x ≡ created patterns) × (rs ≡ declarations patterns)) e) h
          (create-Gives patterns e keeps) in
      (
        rs,
        logged,
        subst (λ x. Memᴰ (declared q) x) (sym asked)
            (Memᴰ.tail (
              subst
                (λ n.
                  Memᴰ (declared (queue_at exchange_name random_part n)) (asked_from 0 patterns))
                (omega arith) (asked-Memᴰ 0 xs p ys))),
        subst (λ x. Deletes q p ys x u) (sym same) (created-Deletes xs p ys u),
      )
