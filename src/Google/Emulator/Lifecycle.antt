-- ===== src/Google/Emulator/Lifecycle.antt =====
-- A topic and a subscription of the emulator, from their creation to their deletion.
use Prim.Native.String.{◌++◌}
use expedit.Prelude.{String, Bool, ◌≡◌, sym, ap, subst}
use expedit.Go.Context.{Context}
use expedit.Handler.{Run, Ret, ok, failed, panicked, then_call, must}
use expedit.Google.Emulator.{
  PubsubTestClient, TestTopic, TestSubscription, topic_path, subscription_path, topic_of,
  subscription_of, create_test_topic, delete_topic, create_test_subscription, delete_subscription,
}

module _ {W A : Type 0} where
  -- A constructor that panics on the error of its request.
  given-succeeded :
      (r : Ret W (Unit {0})) (x y : A) (t : Run W)
      → then_call (must r) (λ _. ok x) ≡ ok y t
      → (r ≡ ok tt t) × (x ≡ y)
  given-succeeded (ok u s) x y t h = (cc, cc)
  given-succeeded (failed e s) x y t h = cc
  given-succeeded (panicked v s) x y t h = cc

-- CreateTestTopic requests the path projects/<project>/topics/T<random part><identifier>, and if it
-- returns a topic, this request has succeeded. CreateTestSubscription of that topic requests a
-- subscription of that path, under the path projects/<project>/subscriptions/T<random
-- part><identifier>, and if it returns a subscription, this request has succeeded. Delete of the
-- subscription and Delete of the topic make the requests for the same two paths, and panic if these
-- fail.
pub created_deleted :
    {W : Type 0} (c : PubsubTestClient W) (random_part identifier of_subscription : String)
    (ctx : Context) (ordered : Bool) (s s' u u' : Run W) (t : TestTopic W) (ts : TestSubscription W)
    → create_test_topic c random_part ctx identifier s ≡ ok t s'
    → create_test_subscription t ctx of_subscription ordered u ≡ ok ts u'
    → let topic =
        "projects/" ++ (c.client.project ++ ("/topics/" ++ (("T" ++ random_part) ++ identifier))) in
      let subscription =
        "projects/"
        ++ (c.client.project ++ ("/subscriptions/" ++ (("T" ++ random_part) ++ of_subscription))) in
      (c.client.create_topic ctx topic s ≡ ok tt s')
      × (c.client.create_subscription ctx
            (record { name = subscription; topic = topic; enable_message_ordering = ordered })
            u
          ≡ ok tt u')
      × ((v : Run W)
          → delete_subscription ts ctx v ≡ must (c.client.delete_subscription ctx subscription v))
      × ((v : Run W) → delete_topic t ctx v ≡ must (c.client.delete_topic ctx topic v))
unfolding create_test_topic create_test_subscription delete_topic delete_subscription topic_path
    subscription_path
created_deleted c random_part identifier of_subscription ctx ordered s s' u u' t ts made
      subscribed =
    let topic = topic_of c.client random_part identifier in
    let (created, same) =
      given-succeeded (c.client.create_topic ctx (topic_path c.client topic.name) s) topic t s'
        made in
    let (requested, same_subscription) =
      given-succeeded
        (c.client.create_subscription ctx
          (record {
            name = subscription_path c.client (subscription_of topic of_subscription).name;
            topic = topic_path c.client topic.name;
            enable_message_ordering = ordered;
          })
          u)
        (subscription_of topic of_subscription) ts u'
        (subst (λ x. create_test_subscription x ctx of_subscription ordered u ≡ ok ts u') (sym same)
          subscribed) in
    (
      created,
      requested,
      λ v. ap (λ x. delete_subscription x ctx v) (sym same_subscription),
      λ v. ap (λ x. delete_topic x ctx v) (sym same),
    )
