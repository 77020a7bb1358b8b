-- ===== src/Tests/Emulator.antt =====
-- A topic and a subscription of the emulator, at concrete inputs.
use Prim.Native.String.{◌++◌ as ◌<>◌}
use expedit.Prelude.{String, true, none, List, [], ◌∷◌, ◌++◌, ◌≡◌, refl}
use expedit.Go.Value.{nil}
use expedit.Go.Context.{background}
use expedit.Handler.{Run, ok, must}
use expedit.Google.Emulator.{
  Client, TestTopic, TestSubscription, topic_of, subscription_of, create_test_topic,
  create_test_subscription, delete_topic, delete_subscription, topic_path, publish_bytes,
}
use expedit.Google.Emulator.Lifecycle.{created_deleted}

-- The world is a list of what was asked of the server.
abbrev log : String → Run (List String) → Run (List String)
log x s = record s { world = s.world ++ x ∷ [] }

abbrev client : Client (List String)
client = record {
  project = "test-project";
  close = λ s. ok tt s;
  create_topic = λ ctx path s. ok tt (log ("create " <> path) s);
  delete_topic = λ ctx path s. ok tt (log ("delete " <> path) s);
  create_subscription = λ ctx x s. ok tt (log ("subscribe to " <> x.topic) s);
  delete_subscription = λ ctx path s. ok tt (log ("delete " <> path) s);
  publisher = λ name. record {
    publish = λ ctx m s. ok "77" (log ("publish to " <> name) s);
    resume_publish = λ key s. s;
    stop = log "stop";
  };
  receive = λ name ctx f. λ s. ok tt s;
}

abbrev start : Run (List String)
start = record {
  message = record { id = ""; metadata = none; payload = nil; ctx = background };
  world = [];
  now = 0;
  next_scope = 0;
  cancelled = [];
}

abbrev topic : TestTopic (List String)
topic = topic_of client "x" "orders"

abbrev subscription : TestSubscription (List String)
subscription = subscription_of topic "orders"

abbrev created : Run (List String)
created = log "create projects/test-project/topics/Txorders" start

abbrev subscribed : Run (List String)
subscribed = log "subscribe to projects/test-project/topics/Txorders" created

created_deleted_example :
    (client.create_topic background "projects/test-project/topics/Txorders" start ≡ ok tt created)
    × (client.create_subscription background
          (record {
            name = "projects/test-project/subscriptions/Txorders";
            topic = "projects/test-project/topics/Txorders";
            enable_message_ordering = true;
          })
          created
        ≡ ok tt subscribed)
    × ((v : Run (List String))
        → delete_subscription subscription background v
          ≡ must (
              client.delete_subscription background "projects/test-project/subscriptions/Txorders"
                v))
    × ((v : Run (List String))
        → delete_topic topic background v
          ≡ must (client.delete_topic background "projects/test-project/topics/Txorders" v))
unfolding create_test_topic create_test_subscription topic_path
created_deleted_example =
    created_deleted (record { client = client }) "x" "orders" "orders" background true start created
      created subscribed topic subscription refl refl

published_and_stopped :
    publish_bytes topic background [] [] start
    ≡ ok "77" (log "stop" (log "publish to Txorders" start))
unfolding publish_bytes
published_and_stopped = refl
