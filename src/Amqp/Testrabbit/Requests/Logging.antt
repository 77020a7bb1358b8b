-- ===== src/Amqp/Testrabbit/Requests/Logging.antt =====
-- The actions that make no request, and what the others make.
use expedit.Prelude.{
  ℕ, zero, suc, ◌+◌, ◌-◌, ◌≡◌, refl, ap, ◌∙◌, String, Bool, true, false, Option, none, some, List,
  [], ◌∷◌, ◌++◌, append-nil, ◌⊎◌, inl, inr, if◌then◌else◌, ltb, ◌=?◌,
}
use expedit.Go.Value.{Error, ℤ, pos_part}
use expedit.Amqp.Testrabbit.{
  Env, Outcome, done, failing, panicking, Action, left, panic_on, warn_on, or_warn, Warning,
  and_then, Op, resulting, call, Channel, pass, two_seconds, not_ready,
}
use expedit.Amqp.Testrabbit.Waiting.{
  poll, polled, poll_interval, enough_turns, wait_for_queue_ready, wait_for_all, attempts, retried,
  pause, backoff, retry_operation, retries_error, not_ready_error,
}
use expedit.Amqp.Testrabbit.Requests.{Request, noted, log_of, noting}

abbrev pub Log : Type 0 → Type 0
Log W = W × List Request

resulting-left : {V A : Type 0} (r : Error ⊎ A) (e : Env V) → left (resulting r e) ≡ e
resulting-left (inl err) e = refl
resulting-left (inr a) e = refl

module _ {W : Type 0} where
  -- However it ends, the action makes no request that is noted.
  abbrev pub IsQuiet : {A : Type 0} → Action (Log W) A → Type 0
  IsQuiet m = (e : Env (Log W)) → log_of (left (m e)) ≡ log_of e

  pub call-left :
      {A : Type 0} (rs : List Request) (op : Op W A) (e : Env (Log W))
      → log_of (left (call (noted rs op) e)) ≡ log_of e ++ rs
  call-left rs op e =
      let r = noted rs op e.now e.world in
      ap (λ (x : Env (Log W)). log_of x)
        (resulting-left r.result (record e { world = r.world; now = e.now + r.took }))

  pub call-IsQuiet : {A : Type 0} (op : Op W A) → IsQuiet (call (noted [] op))
  call-IsQuiet op e = call-left [] op e ∙ append-nil (log_of e)

  pub panic_on-log :
      {A : Type 0} (f : Error → Error) (o : Outcome (Log W) A)
      → log_of (left (panic_on f o)) ≡ log_of (left o)
  panic_on-log f (done a e) = refl
  panic_on-log f (failing err e) = refl
  panic_on-log f (panicking err e) = refl

  pub warn_on-log :
      {A : Type 0} (f : Error → Warning) (o : Outcome (Log W) A)
      → log_of (left (warn_on f o)) ≡ log_of (left o)
  warn_on-log f (done a e) = refl
  warn_on-log f (failing err e) = refl
  warn_on-log f (panicking err e) = refl

  then-log :
      {A B : Type 0} (m : Action (Log W) B) (o : Outcome (Log W) A)
      → IsQuiet m
      → log_of (left (and_then o (λ a. m))) ≡ log_of (left o)
  then-log m (done a e) q = q e
  then-log m (failing err e) q = refl
  then-log m (panicking err e) q = refl

  polled-log :
      {A : Type 0} (next : Action (Log W) (Unit {0})) (o : Outcome (Log W) A)
      → IsQuiet next
      → log_of (left (polled next o)) ≡ log_of (left o)
  polled-log next (done a e) q = refl
  polled-log next (failing err e) q = q (pass poll_interval e)
  polled-log next (panicking err e) q = refl

  poll-IsQuiet :
      {A : Type 0} (turns : ℕ) (op : Op (Log W) A) (err : Error) (start max_wait : ℕ)
      → IsQuiet (call op)
      → IsQuiet (poll turns op err start max_wait)
  unfolding poll
  poll-IsQuiet zero op err start max_wait q e = refl
  poll-IsQuiet (suc turns) op err start max_wait q e =
      tested (ltb (e.now - start) max_wait) (poll-IsQuiet turns op err start max_wait q)
    where
      tested :
          (b : Bool)
          → IsQuiet (poll turns op err start max_wait)
          → log_of (
              left (
                if b then polled (poll turns op err start max_wait) (call op e) else failing err e))
            ≡ log_of e
      tested true rest = polled-log (poll turns op err start max_wait) (call op e) rest ∙ q e
      tested false rest = refl

  retried-log :
      (next : Error → Action (Log W) (Unit {0})) (o : Outcome (Log W) (Unit {0}))
      → ((err : Error) → IsQuiet (next err))
      → log_of (left (retried next o)) ≡ log_of (left o)
  retried-log next (done a e) q = refl
  retried-log next (failing err e) q = q err e
  retried-log next (panicking err e) q = refl

  pause-log : (i n : ℕ) (e : Env (Log W)) → log_of (pause i n e) ≡ log_of e
  pause-log i n e = tested (n =? 0)
    where
      tested : (b : Bool) → log_of (if b then e else pass (backoff i) e) ≡ log_of e
      tested true = refl
      tested false = refl

  attempts-IsQuiet :
      (operation : Action (Log W) (Unit {0})) (report : Option Error → Error) (i n : ℕ)
      (last : Option Error)
      → IsQuiet operation
      → IsQuiet (attempts operation report i n last)
  unfolding attempts
  attempts-IsQuiet operation report i zero last q e = refl
  attempts-IsQuiet operation report i (suc n) last q e =
      retried-log (λ err v. attempts operation report (suc i) n (some err) (pause i n v))
        (operation e)
        (λ err v.
          attempts-IsQuiet operation report (suc i) n (some err) q (pause i n v) ∙ pause-log i n v)
      ∙ q e

  pub retry_operation-IsQuiet :
      (operation : Action (Log W) (Unit {0})) (max_retries : ℤ) (description : String)
      → IsQuiet operation
      → IsQuiet (retry_operation operation max_retries description)
  unfolding retry_operation
  retry_operation-IsQuiet operation max_retries description q =
      attempts-IsQuiet operation (retries_error max_retries description) 0 (pos_part max_retries)
        none q

module _ {W D : Type 0} (show_duration : ℕ → String) (channel : Channel W D) where
  pub wait_for_queue_ready-IsQuiet :
      (queue : String) (max_wait : ℕ)
      → IsQuiet (wait_for_queue_ready show_duration (noting channel) queue max_wait)
  unfolding wait_for_queue_ready noting
  wait_for_queue_ready-IsQuiet queue max_wait e =
      poll-IsQuiet (enough_turns max_wait)
        ((noting channel).queue_declare_passive queue false false false false)
        (not_ready_error queue (show_duration max_wait)) e.now max_wait
        (call-IsQuiet (channel.queue_declare_passive queue false false false false)) e

  pub wait_for_all-IsQuiet :
      (queues : List String) → IsQuiet (wait_for_all show_duration (noting channel) queues)
  unfolding wait_for_all
  wait_for_all-IsQuiet [] e = refl
  wait_for_all-IsQuiet (queue ∷ queues) e =
      then-log (wait_for_all show_duration (noting channel) queues)
        (or_warn not_ready (wait_for_queue_ready show_duration (noting channel) queue two_seconds)
          e)
        (wait_for_all-IsQuiet queues)
      ∙ (warn_on-log not_ready
            (wait_for_queue_ready show_duration (noting channel) queue two_seconds e)
          ∙ wait_for_queue_ready-IsQuiet queue two_seconds e)
