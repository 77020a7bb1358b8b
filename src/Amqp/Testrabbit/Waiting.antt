-- ===== src/Amqp/Testrabbit/Waiting.antt =====
-- waitForQueueReady and retryOperation of amqp/testrabbit/local.go, and the part that the functions
-- for exchanges share: a queue that is declared, bound and looked at.
pub mod Deadline
pub mod Attempts
use Prim.Native.String.{◌++◌}
use expedit.Prelude.{
  ℕ, zero, suc, ◌+◌, ◌-◌, ◌*◌, ◌/◌, String, Bool, true, false, Option, none, some, List, [], ◌∷◌,
  ltb, ◌=?◌, if◌then◌else◌,
}
use expedit.Go.Value.{Error, new, wrap, ℤ, pos, pos_part}
use expedit.Go.Number.{format_int}
use expedit.Amqp.Testrabbit.{
  Env, Outcome, done, failing, panicking, Action, pure, ◌>>=◌, ◌>>◌, or_panic, or_panic_with,
  or_warn, not_ready, pass, millisecond, two_seconds, Op, call, Channel,
}

-- `shown` is the text of the duration.
abbrev pub not_ready_error : String → String → Error
not_ready_error queue shown = new ("queue " ++ (queue ++ (" not ready within " ++ shown)))

abbrev pub poll_interval : ℕ
poll_interval = 25 * millisecond

-- How a turn of the loop ends; `next` is the turn behind it.
abbrev pub polled : {W A : Type 0} → Action W (Unit {0}) → Outcome W A → Outcome W (Unit {0})
polled next (done a e) = done tt e
polled next (failing err e) = next (pass poll_interval e)
polled next (panicking err e) = panicking err e

-- The loop for a number of turns.
unfoldable pub poll : {W A : Type 0} → ℕ → Op W A → Error → ℕ → ℕ → Action W (Unit {0})
poll zero op err start max_wait e = failing err e
poll (suc turns) op err start max_wait e =
    let next = poll turns op err start max_wait in
    if ltb (e.now - start) max_wait then polled next (call op e) else failing err e

-- A turn takes the poll interval at least.
abbrev pub enough_turns : ℕ → ℕ
enough_turns max_wait = suc (max_wait / poll_interval)

module _ {W D : Type 0} (show_duration : ℕ → String) (channel : Channel W D) where
  unfoldable pub wait_for_queue_ready : String → ℕ → Action W (Unit {0})
  unfolding poll
  wait_for_queue_ready queue max_wait e =
      poll (enough_turns max_wait) (channel.queue_declare_passive queue false false false false)
        (not_ready_error queue (show_duration max_wait)) e.now max_wait e

  -- The loop over the queues of a map.
  unfoldable pub wait_for_all : List String → Action W (Unit {0})
  unfolding wait_for_queue_ready
  wait_for_all [] = pure tt
  wait_for_all (queue ∷ queues) = do
    or_warn not_ready (wait_for_queue_ready queue two_seconds)
    wait_for_all queues

-- fmt.Errorf with `%w`: a nil error is not wrapped.
abbrev pub retries_error : ℤ → String → Option Error → Error
retries_error max_retries description none =
    new (description ++ (" failed after " ++ (format_int max_retries ++ " retries: %!w(<nil>)")))
retries_error max_retries description (some err) =
    wrap (description ++ (" failed after " ++ (format_int max_retries ++ " retries"))) err

-- The sleep behind attempt `i`, if there is one to come.
abbrev pub backoff : ℕ → ℕ
backoff i = (i + 1) * (50 * millisecond)

abbrev pub pause : {W : Type 0} → ℕ → ℕ → Env W → Env W
pause i attempts_left e = if attempts_left =? 0 then e else pass (backoff i) e

abbrev pub retried :
    {W : Type 0} → (Error → Action W (Unit {0})) → Outcome W (Unit {0}) → Outcome W (Unit {0})
retried next (done a e) = done tt e
retried next (failing err e) = next err e
retried next (panicking err e) = panicking err e

-- The loop from attempt `i` on.
unfoldable pub attempts :
    {W : Type 0}
    → Action W (Unit {0})
    → (Option Error → Error)
    → ℕ
    → ℕ
    → Option Error
    → Action W (Unit {0})
attempts operation report i zero last_err e = failing (report last_err) e
attempts operation report i (suc attempts_left) last_err e =
    retried
      (λ err e'.
        attempts operation report (suc i) attempts_left (some err) (pause i attempts_left e'))
      (operation e)

unfoldable pub retry_operation :
    {W : Type 0} → Action W (Unit {0}) → ℤ → String → Action W (Unit {0})
unfolding attempts
retry_operation operation max_retries description =
    attempts operation (retries_error max_retries description) 0 (pos_part max_retries) none

-- A queue of an exchange: it is declared, `bind` binds it, and it is looked at.
unfoldable pub declare_bound :
    {W D : Type 0}
    → Channel W D
    → String
    → (String → Action W (Unit {0}))
    → (String → String)
    → Action W String
unfolding retry_operation
declare_bound channel full_queue_name bind description = do
  queue ← or_panic (call (channel.queue_declare full_queue_name true false false false))
  or_panic (retry_operation (bind queue) (pos 3) (description queue))
  or_panic_with (wrap ("failed to verify queue " ++ queue))
      (call (channel.queue_declare_passive queue false false false false))
  pure queue
