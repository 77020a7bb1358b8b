-- ===== src/Redis/Subscriber/Receiving/Failing.antt =====
-- When Receive of a redis subscriber returns an error.
use expedit.Prelude.{
  ℕ, Option, none, some, String, ◌≡◌, refl, ap, ◌∙◌, subst, ◌⊎◌, inl, inr, some_inj,
}
use expedit.Go.Value.{Error}
use expedit.Go.Context.{Context}
use expedit.Handler.{Run, Ret, ok, failed, panicked, final, err_of}
use expedit.Subscriber.Dispatcher.{Delivery}
use expedit.Redis.Subscriber.{RedisSubscriber}
use expedit.Redis.Subscriber.Receiving.{
  Client, create_consumer_group, resolve_start_id, receive, grouped, started_at, all_waited,
  unless_done,
}

module _ {W : Type 0} (client : Client W) (sub : RedisSubscriber W) (consumer : String)
    (dispatch : Delivery W → Run W → Run W) (wait : Run W → Run W) (ctx : Context) where
  waited-live :
      (o : Option (Ret W (Unit {0}))) (e : Error) (t : Run W)
      → all_waited client sub consumer dispatch wait ctx o ≡ some (failed e t)
      → err_of t ctx ≡ none
  waited-live none e t h = cc
  waited-live (some (ok a s)) e t h = cc
  waited-live (some (panicked v s)) e t h = cc
  waited-live (some (failed e' s)) e t h = tested (err_of (wait s) ctx) refl (some_inj h)
    where
      tested :
          (o : Option Error)
          → err_of (wait s) ctx ≡ o
          → unless_done client sub consumer dispatch wait ctx o e' (wait s) ≡ failed e t
          → err_of t ctx ≡ none
      tested none live h' = subst (λ r. err_of r ctx ≡ none) (ap final h') live
      tested (some done) live h' = cc

  -- Receive returns an error, however many turns its loop takes, only if making the consumer group
  -- failed with that error, or if ctx is not done when it returns: an error of the loop that comes
  -- from a shutdown is never returned.
  pub receive_fails :
      (turns : ℕ) (s t : Run W) (e : Error)
      → receive client sub consumer dispatch wait ctx turns s ≡ some (failed e t)
      → (create_consumer_group client sub ctx s ≡ failed e t) ⊎ (err_of t ctx ≡ none)
  unfolding receive
  receive_fails turns s t e h = made (create_consumer_group client sub ctx s) refl h
    where
      made :
          (r : Ret W (Unit {0}))
          → create_consumer_group client sub ctx s ≡ r
          → grouped client sub consumer dispatch wait ctx turns r ≡ some (failed e t)
          → (create_consumer_group client sub ctx s ≡ failed e t) ⊎ (err_of t ctx ≡ none)
      made (ok a s') m h' = inr (
          waited-live
            (started_at client sub consumer dispatch wait ctx turns
              (resolve_start_id client sub ctx s'))
            e t h')
      made (failed e' s') m h' = inl (m ∙ some_inj h')
      made (panicked v s') m h' = cc
