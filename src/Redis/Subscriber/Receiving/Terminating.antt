-- ===== src/Redis/Subscriber/Receiving/Terminating.antt =====
-- When the loop of a redis subscriber ends.
use expedit.Prelude.{
  ℕ, zero, suc, ◌+◌, ◌<◌, ◌≤◌, String, true, Option, none, some, List, [], ◌∷◌, ◌≡◌, refl, ap,
  arith, Bool-cases, inl, inr, ◌==◌, leb,
}
use expedit.Go.Value.{Error}
use expedit.Go.Context.{Context, any_in, canceled, deadline_exceeded}
use expedit.Handler.{Run, Ret, ok, failed, panicked, final, err_of}
use expedit.Subscriber.Dispatcher.{Delivery}
use expedit.Redis.Values.{XMessage}
use expedit.Redis.Subscriber.{RedisSubscriber}
use expedit.Redis.Subscriber.Receiving.{
  Client, ReadArgs, ClaimArgs, create_consumer_group, resolve_start_id, receive, grouped,
  started_at, all_waited, dispatch_all, dispatch_streams, after_read, after_claim, delivery,
  read_args, Cursor, cycle, loop, waited, while_live, then_turn,
}

-- A read takes some time, and nothing turns the clock back.
pub record Ticks {W : Type 0} (client : Client W) (dispatch : Delivery W → Run W → Run W)
    : Type 0 where
  pub by_read : (c : Context) (a : ReadArgs) (s : Run W) → s.now < (final (client.read c a s)).now
  pub by_read_group :
      (c : Context) (a : ReadArgs) (s : Run W) → s.now < (final (client.read_group c a s)).now
  pub by_claim :
      (c : Context) (a : ClaimArgs) (s : Run W) → s.now ≤ (final (client.auto_claim c a s)).now
  pub by_dispatch : (d : Delivery W) (s : Run W) → s.now ≤ (dispatch d s).now

-- If the call succeeds, it ends behind a time.
abbrev Passes : {W A : Type 0} → ℕ → Ret W A → Type 0
Passes k (ok a s) = k < s.now
Passes k (failed e s) = Unit
Passes k (panicked v s) = Unit

module _ {W : Type 0} (client : Client W) (sub : RedisSubscriber W) (consumer : String)
    (dispatch : Delivery W → Run W → Run W) (wait : Run W → Run W) (ctx : Context)
    (ticks : Ticks client dispatch) where
  dispatch_all-ticks :
      (msgs : List XMessage) (s : Run W)
      → s.now ≤ (dispatch_all client sub consumer dispatch wait ctx msgs s).now
  unfolding dispatch_all
  dispatch_all-ticks [] s = omega arith
  dispatch_all-ticks (m ∷ msgs) s =
      let t = dispatch (delivery client sub ctx m) s in
      omega (arith, ticks.by_dispatch (delivery client sub ctx m) s, dispatch_all-ticks msgs t)

  dispatch_streams-ticks :
      (streams : List (List XMessage)) (s : Run W)
      → s.now ≤ (dispatch_streams client sub consumer dispatch wait ctx streams s).now
  unfolding dispatch_streams
  dispatch_streams-ticks [] s = omega arith
  dispatch_streams-ticks (msgs ∷ streams) s = omega (
    arith,
    dispatch_all-ticks msgs s,
    dispatch_streams-ticks streams (dispatch_all client sub consumer dispatch wait ctx msgs s),
  )

  after_read-Passes :
      (k : ℕ) (at : Cursor) (r : Ret W (List (List XMessage)))
      → k < (final r).now
      → Passes k (after_read client sub consumer dispatch wait ctx at r)
  after_read-Passes k at (ok streams s) h = omega (arith, h, dispatch_streams-ticks streams s)
  after_read-Passes k at (failed e s) h = elim (Bool-cases (client.is_nil e)) [
    | inl y ↦ rw y h
    | inr n ↦ rw n tt
  ]
  after_read-Passes k at (panicked v s) h = tt

  after_claim-Passes :
      (k : ℕ) (at : Cursor) (r : Ret W (List XMessage × String))
      → k ≤ (final r).now
      → Passes k (after_claim client sub consumer dispatch wait ctx at r)
  after_claim-Passes k at (ok (claimed, next_start) s) h =
      let t = dispatch_all client sub consumer dispatch wait ctx claimed s in
      let a = read_args client sub consumer dispatch wait ctx ">" in
      after_read-Passes k (record at { claim_start = next_start }) (client.read_group ctx a t)
        (omega (arith, h, dispatch_all-ticks claimed s, ticks.by_read_group ctx a t))
  after_claim-Passes k at (failed e s) h = tt
  after_claim-Passes k at (panicked v s) h = tt

  cycle-Passes :
      (at : Cursor) (s : Run W) → Passes s.now (cycle client sub consumer dispatch wait ctx at s)
  unfolding cycle
  cycle-Passes at s = elim (Bool-cases (sub.options.consumer_group == "")) [
    | inl e ↦ rw e (after_read-Passes s.now at _ (ticks.by_read ctx _ s))
    | inr e ↦ rw e (after_claim-Passes s.now at _ (ticks.by_claim ctx _ s))
  ]

  done_by :
      (d : ℕ) (s : Run W)
      → ctx.deadline ≡ some d
      → d ≤ s.now
      → (e : Error) × (err_of s ctx ≡ some e)
  done_by d s h late = elim (Bool-cases (any_in ctx.scopes s.cancelled)) [
    | inl y ↦ (canceled, rw y refl)
    | inr n ↦
        let over : leb d s.now ≡ true = ground arith in (deadline_exceeded, rw (n, h, over) refl)
  ]

  -- The next turns return, or this one has not succeeded.
  then_turn-returns :
      (next : Cursor → Run W → Option (Ret W (Unit {0}))) (k : ℕ) (r : Ret W Cursor)
      → Passes k r
      → ((at : Cursor) (s : Run W) → k < s.now → (x : Ret W (Unit {0})) × (next at s ≡ some x))
      → (x : Ret W (Unit {0})) × (then_turn client sub consumer dispatch wait ctx next r ≡ some x)
  then_turn-returns next k (ok at s) h go = go at s h
  then_turn-returns next k (failed e s) h go = (failed e s, refl)
  then_turn-returns next k (panicked v s) h go = (panicked v s, refl)

  while_live-returns :
      (o : Option Error) (s : Run W) (turn : Run W → Option (Ret W (Unit {0})))
      → (o ≡ none → (x : Ret W (Unit {0})) × (turn s ≡ some x))
      → (x : Ret W (Unit {0})) × (while_live client sub consumer dispatch wait ctx o s turn
          ≡ some x)
  while_live-returns none s turn go = go refl
  while_live-returns (some e) s turn go = (ok tt s, refl)

  loop_returns :
      (d turns : ℕ) (at : Cursor) (s : Run W)
      → ctx.deadline ≡ some d
      → d ≤ turns + s.now
      → (r : Ret W (Unit {0})) × (loop client sub consumer dispatch wait ctx (suc turns) at s
          ≡ some r)
  unfolding loop
  loop_returns d zero at s h enough =
      let (e, over) = done_by d s h (omega (arith, enough)) in
      while_live-returns (err_of s ctx) s _ (λ live. cc)
  loop_returns d (suc turns) at s h enough = while_live-returns (err_of s ctx) s _ (λ live.
      then_turn-returns _ s.now _ (cycle-Passes at s)
        (λ at' s' later. loop_returns d turns at' s' h (omega (arith, enough, later))))

  -- Receive of a redis subscriber returns, where its ctx has a deadline d: `suc d` turns of its loop,
  -- counted from the time 0, are enough, whatever the client and the dispatcher do, if each read
  -- takes some time and no call turns the clock back.
  pub receive_returns :
      (d : ℕ) (s : Run W)
      → ctx.deadline ≡ some d
      → (r : Ret W (Unit {0})) × (receive client sub consumer dispatch wait ctx (suc d) s ≡ some r)
  unfolding receive
  receive_returns d s h = grouped_returns (create_consumer_group client sub ctx s)
    where
      waited_returns :
          (o : Option (Ret W (Unit {0})))
          → (r : Ret W (Unit {0})) × (o ≡ some r)
          → (r : Ret W (Unit {0})) × (all_waited client sub consumer dispatch wait ctx o ≡ some r)
      waited_returns o (r, e) = (
        waited client sub consumer dispatch wait ctx r,
        ap (all_waited client sub consumer dispatch wait ctx) e,
      )

      started_returns :
          (r : Ret W String)
          → (x : Ret W (Unit {0})) × (started_at client sub consumer dispatch wait ctx (suc d) r
              ≡ some x)
      started_returns (ok id t) = loop_returns d d _ t h (omega arith)
      started_returns (failed e t) = (failed e t, refl)
      started_returns (panicked v t) = (panicked v t, refl)

      grouped_returns :
          (r : Ret W (Unit {0}))
          → (x : Ret W (Unit {0})) × (grouped client sub consumer dispatch wait ctx (suc d) r
              ≡ some x)
      grouped_returns (ok a t) =
          waited_returns _ (started_returns (resolve_start_id client sub ctx t))
      grouped_returns (failed e t) = (failed e t, refl)
      grouped_returns (panicked v t) = (panicked v t, refl)
