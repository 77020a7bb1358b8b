-- ===== src/Amqp/Testrabbit/Waiting/Deadline.antt =====
-- When the wait for a queue ends.
use expedit.Prelude.{
  ℕ, zero, suc, ◌+◌, ◌-◌, ◌*◌, ◌≤◌, ◌<◌, ◌≡◌, refl, ap, String, Bool, true, false, ◌⊎◌, inl, inr,
  ltb, if◌then◌else◌, arith,
}
use expedit.Go.Value.{Error}
use expedit.Amqp.Testrabbit.{
  Env, Outcome, done, failing, panicking, Action, pass, Op, Reply, resulting, call, Channel,
}
use expedit.Amqp.Testrabbit.Waiting.{
  poll, polled, poll_interval, enough_turns, not_ready_error, wait_for_queue_ready,
}

module _ {W A : Type 0} (op : Op W A) (err : Error) (start max_wait longest : ℕ) where
  -- How a wait ends that began at `start`, if no call takes longer than `longest`.
  abbrev pub Ends : Outcome W (Unit {0}) → Type 0
  Ends (done r t) =
      (a : A) × (e : Env W) × (call op e ≡ done a t) × (start ≤ e.now) × (e.now < start + max_wait)
  Ends (failing x t) =
      (x ≡ err) × (start + max_wait ≤ t.now) × (t.now ≤ start + max_wait + longest + poll_interval)
  Ends (panicking x t) = ⊥

  poll-Ends :
      (turns : ℕ) (e : Env W)
      → ((now : ℕ) (w : W) → (op now w).took ≤ longest)
      → start ≤ e.now
      → e.now ≤ start + max_wait + longest + poll_interval
      → start + max_wait ≤ e.now + turns * poll_interval
      → Ends (poll turns op err start max_wait e)
  unfolding poll
  poll-Ends zero e short from until enough = (refl, omega arith, omega arith)
  poll-Ends (suc turns) e short from until enough =
      tested (ltb (e.now - start) max_wait) refl
        (λ u v w. poll-Ends turns (pass poll_interval behind) short u v w)
    where
      reply : Reply W A
      reply = op e.now e.world

      behind : Env W
      behind = record e { world = reply.world; now = e.now + reply.took }

      next : Action W (Unit {0})
      next = poll turns op err start max_wait

      replied :
          (r : Error ⊎ A)
          → reply.result ≡ r
          → e.now < start + max_wait
          → Ends (next (pass poll_interval behind))
          → Ends (polled next (resulting r behind))
      replied (inl x) q in_time rest = rest
      replied (inr a) q in_time rest = (a, e, ap (λ r. resulting r behind) q, from, in_time)

      tested :
          (b : Bool)
          → ltb (e.now - start) max_wait ≡ b
          → (start ≤ behind.now + poll_interval
              → behind.now + poll_interval ≤ start + max_wait + longest + poll_interval
              → start + max_wait ≤ behind.now + poll_interval + turns * poll_interval
              → Ends (next (pass poll_interval behind)))
          → Ends (if b then polled next (call op e) else failing err e)
      tested true q rest =
          let in_time : e.now < start + max_wait = ground arith in
          let taken : reply.took ≤ longest = short e.now e.world in
          let turn : suc turns * poll_interval ≡ poll_interval + turns * poll_interval =
            omega arith in
          replied reply.result refl in_time (rest (omega arith) (omega arith) (omega arith))
      tested false q rest = (refl, ground arith, ground arith)

module _ {W D : Type 0} where
  -- If no passive declare takes longer than `longest`, waitForQueueReady returns, and it does not
  -- panic. It returns nil just behind a passive declare of the queue that succeeded and that began less
  -- than `maxWait` after the start of the wait. It returns its error at the end of `maxWait` or later,
  -- by one such call and one poll interval at most: the turns of the model never end the loop early.
  pub wait_for_queue_ready-Ends :
      (show_duration : ℕ → String) (channel : Channel W D) (queue : String) (max_wait longest : ℕ)
      (e : Env W)
      → ((now : ℕ) (w : W)
          → (channel.queue_declare_passive queue false false false false now w).took ≤ longest)
      → Ends
          (channel.queue_declare_passive queue false false false false)
          (not_ready_error queue (show_duration max_wait))
          e.now
          max_wait
          longest
          (wait_for_queue_ready show_duration channel queue max_wait e)
  unfolding wait_for_queue_ready
  wait_for_queue_ready-Ends show_duration channel queue max_wait longest e short =
      poll-Ends (channel.queue_declare_passive queue false false false false)
        (not_ready_error queue (show_duration max_wait)) e.now max_wait longest
        (enough_turns max_wait) e short (omega arith) (omega arith) (omega arith)
