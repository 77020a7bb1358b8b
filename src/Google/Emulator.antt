-- ===== src/Google/Emulator.antt =====
-- google/emulator/gcp_emulator.go: topics and subscriptions for tests against the emulator. What the
-- code uses of the client of Pub/Sub is a record of calls. The random part of a topic's name, which
-- shortuuid makes, is an argument.
pub mod Lifecycle
use Prim.Native.String.{◌++◌}
use expedit.Prelude.{ℕ, String, Bool, List, Map}
use expedit.Go.Value.{ℤ}
use expedit.Go.Context.{Context}
use expedit.Handler.{Run, Ret, ok, failed, panicked, Call, Handler, then_call, must, deferred}
use expedit.Publisher.Destinations.{Destination}
use expedit.Google.Publisher.{PubsubMessage, Topic}
use expedit.Google.Subscriber.{Received}

-- The fields of pubsubpb.Subscription that the code sets.
pub record Subscription : Type 0 where
  pub name : String
  pub topic : String
  pub enable_message_ordering : Bool

-- The calls of the administration get paths. `receive` is Receive of a subscriber: it runs its
-- callback for the messages that it receives.
pub record Client (W : Type 0) : Type 0 where
  pub project : String
  pub close : Handler W
  pub create_topic : Context → String → Handler W
  pub delete_topic : Context → String → Handler W
  pub create_subscription : Context → Subscription → Handler W
  pub delete_subscription : Context → String → Handler W
  pub publisher : String → Topic W
  pub receive : String → Context → (Context → Received W → Handler W) → Handler W

pub record PubsubTestClient (W : Type 0) : Type 0 where
  pub client : Client W

pub record TestTopic (W : Type 0) : Type 0 where
  pub client : Client W
  pub prefix : String
  pub identifier : String
  pub name : Destination

pub record TestSubscription (W : Type 0) : Type 0 where
  pub client : Client W
  pub prefix : String
  pub identifier : String
  pub name : String

-- A channel, by what the code does with it. A send returns when the value is taken.
pub record Chan (W A : Type 0) : Type 0 where
  pub send : A → Handler W

module _ {W : Type 0} where
  unfoldable pub topic_path : Client W → String → String
  topic_path client topic = "projects/" ++ (client.project ++ ("/topics/" ++ topic))

  unfoldable pub subscription_path : Client W → String → String
  subscription_path client subscription =
      "projects/" ++ (client.project ++ ("/subscriptions/" ++ subscription))

  -- `new_client` is pubsub.NewClient.
  unfoldable pub new_test_client :
      (Context → String → Call W (Client W)) → Context → String → Call W (PubsubTestClient W)
  new_test_client new_client ctx gcp_project s =
      then_call (must (new_client ctx gcp_project s)) (λ c. ok (record { client = c }))

  unfoldable pub close : PubsubTestClient W → Handler W
  close c s = must (c.client.close s)

  -- All topics start with T: a name must start with a letter.
  abbrev pub topic_of : Client W → String → String → TestTopic W
  topic_of client random_part identifier = record {
    client = client;
    prefix = "T" ++ random_part;
    identifier = identifier;
    name = ("T" ++ random_part) ++ identifier;
  }

  unfoldable pub create_test_topic :
      PubsubTestClient W → String → Context → String → Call W (TestTopic W)
  unfolding topic_path
  create_test_topic c random_part ctx identifier s =
      let t = topic_of c.client random_part identifier in
      then_call (must (c.client.create_topic ctx (topic_path c.client t.name) s)) (λ _. ok t)

  unfoldable pub delete_topic : TestTopic W → Context → Handler W
  unfolding topic_path
  delete_topic t ctx s = must (t.client.delete_topic ctx (topic_path t.client t.name) s)

  abbrev pub subscription_of : TestTopic W → String → TestSubscription W
  subscription_of t identifier = record {
    client = t.client;
    prefix = t.prefix;
    identifier = identifier;
    name = t.prefix ++ identifier;
  }

  unfoldable pub create_test_subscription :
      TestTopic W → Context → String → Bool → Call W (TestSubscription W)
  unfolding topic_path subscription_path
  create_test_subscription t ctx identifier ordered s =
      let ts = subscription_of t identifier in
      then_call
        (must (
          t.client.create_subscription ctx
            (record {
              name = subscription_path t.client ts.name;
              topic = topic_path t.client t.name;
              enable_message_ordering = ordered;
            })
            s))
        (λ _. ok ts)

  -- The result is the ID that the server gives. `defer topicPublisher.Stop()`.
  unfoldable pub publish_bytes : TestTopic W → Context → List ℕ → Map String → Call W String
  publish_bytes t ctx body attrs s =
      let topic_publisher = t.client.publisher t.name in
      deferred topic_publisher.stop (
        must (
          topic_publisher.publish ctx
            (record { id = ""; body = body; ordering_key = ""; attributes = attrs }) s))

  unfoldable pub delete_subscription : TestSubscription W → Context → Handler W
  unfolding subscription_path
  delete_subscription ts ctx s =
      must (ts.client.delete_subscription ctx (subscription_path ts.client ts.name) s)

  -- The function that the goroutine runs: it acks a message and then sends what `content` makes of it.
  abbrev pub forwarding :
      {A : Type 0} → TestSubscription W → Context → (Received W → A) → Chan W A → Handler W
  forwarding ts ctx content ch s =
      must (ts.client.receive ts.name ctx (λ _ m t. ch.send (content m) (m.ack t)) s)

  -- The channel, and the goroutine that is started. `make` makes a channel of a size.
  unfoldable pub message_channel :
      (ℤ → Call W (Chan W (Received W)))
      → TestSubscription W
      → Context
      → ℤ
      → Call W (Chan W (Received W) × Handler W)
  message_channel make ts ctx size s =
      then_call (make size s) (λ ch. ok (ch, forwarding ts ctx (λ m. m) ch))

  -- `text` is the conversion of bytes to a string.
  unfoldable pub message_data_channel :
      (ℤ → Call W (Chan W String))
      → (List ℕ → String)
      → TestSubscription W
      → Context
      → ℤ
      → Call W (Chan W String × Handler W)
  message_data_channel make text ts ctx size s =
      then_call (make size s) (λ ch. ok (ch, forwarding ts ctx (λ m. text m.body) ch))
