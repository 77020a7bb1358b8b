-- ===== src/Google/Publisher/Republish.antt =====
-- A message that was published to Pub/Sub and is published again.
use expedit.Prelude.{
  String, Bool, true, false, Option, none, some, List, ℕ, ◌≡◌, refl, sym, ap, subst, ◌≢◌, ◌==◌,
  if◌then◌else◌, str_ne,
}
use expedit.Go.Value.{Error}
use expedit.Go.Context.{Context}
use expedit.Handler.{Run, Ret, ok, failed, panicked, final}
use expedit.Publisher.Destinations.{RoutingFunc, deliver, handed, confirmed, set_id}
use expedit.Google.Publisher.{
  PubsubMessage, Topic, Client, PublisherOptions, config, topic_publisher, topic_publish, published,
  marshal, marshalled, body_of, readonly_error, payload_error, get_message_id,
}

abbrev id_in : {W : Type 0} → Ret W PubsubMessage → String
id_in (ok m s) = m.id
id_in (failed e s) = ""
id_in (panicked v s) = ""

module _ {W : Type 0} (topic : Topic W) where
  -- A message with an ID is not sent.
  refused_by_topic :
      (ctx : Context) (m : PubsubMessage) (s : Run W)
      → m.id ≢ ""
      → topic_publish topic ctx m s ≡ failed readonly_error s
  unfolding topic_publish
  refused_by_topic ctx m s n =
      ap
        (λ (b : Bool).
          if b then published topic m (topic.publish ctx m s) else failed readonly_error s)
        (str_ne m.id "" n)

  refused :
      (options : PublisherOptions) (s : Run W) (o : Option (List ℕ))
      → s.message.id ≢ ""
      → (e : Error) × (handed (topic_publisher topic) (marshalled options o s) ≡ failed e s)
  unfolding topic_publisher
  refused options s none n = (payload_error, refl)
  refused options s (some b) n = (
    readonly_error,
    ap (confirmed (topic_publisher topic)) (refused_by_topic s.message.ctx _ s n),
  )

  -- What a topic has published has the server's ID.
  published-id :
      (m : PubsubMessage) (r : Ret W String) (sent : PubsubMessage) (t : Run W)
      → ((id : String) (u : Run W) → r ≡ ok id u → id ≢ "")
      → published topic m r ≡ ok sent t
      → sent.id ≢ ""
  published-id m (ok id s) sent t ids h = subst (λ x. x ≢ "") (ap id_in h) (ids id s refl)
  published-id m (failed e s) sent t ids h = cc
  published-id m (panicked v s) sent t ids h = cc

  confirmed-id :
      (r : Ret W PubsubMessage) (t : Run W)
      → ((sent : PubsubMessage) (u : Run W) → r ≡ ok sent u → sent.id ≢ "")
      → confirmed (topic_publisher topic) r ≡ ok tt t
      → t.message.id ≢ ""
  unfolding topic_publisher get_message_id
  confirmed-id (ok sent s) t ids h =
      let n = ids sent s refl in
      let id : (set_id sent.id s).message.id ≡ sent.id =
        ap
          (λ (b : Bool).
            (if b
              then s
              else record s { message = record (s.message) { id = sent.id } }).message.id)
          (str_ne sent.id "" n) in
      subst (λ r. r.message.id ≢ "") (ap final h) (subst (λ x. x ≢ "") (sym id) n)
  confirmed-id (failed e s) t ids h = cc
  confirmed-id (panicked v s) t ids h = cc

  topic_publish-id :
      (ctx : Context) (m sent : PubsubMessage) (s t : Run W)
      → ((id : String) (u : Run W) → topic.publish ctx m s ≡ ok id u → id ≢ "")
      → topic_publish topic ctx m s ≡ ok sent t
      → sent.id ≢ ""
  unfolding topic_publish
  topic_publish-id ctx m sent s t ids h = tested (m.id == "") h
    where
      tested :
          (b : Bool)
          → (if b then published topic m (topic.publish ctx m s) else failed readonly_error s)
            ≡ ok sent t
          → sent.id ≢ ""
      tested true h' = published-id m (topic.publish ctx m s) sent t ids h'
      tested false h' = cc

  handed-id :
      (options : PublisherOptions) (s t : Run W) (o : Option (List ℕ))
      → ((ctx : Context) (m : PubsubMessage) (id : String) (u v : Run W)
          → topic.publish ctx m u ≡ ok id v
          → id ≢ "")
      → handed (topic_publisher topic) (marshalled options o s) ≡ ok tt t
      → t.message.id ≢ ""
  unfolding topic_publisher
  handed-id options s t none ids h = cc
  handed-id options s t (some b) ids h =
      confirmed-id (topic_publish topic s.message.ctx _ s) t
        (λ sent u e.
          topic_publish-id s.message.ctx _ sent s u (λ id v p. ids s.message.ctx _ id s v p) e)
        h

  -- A message that a Google publisher has published gets the server's ID, which is never empty. So when
  -- the same message is published to the topic once more, that fails and changes nothing: the topic's
  -- client is not called, whatever the message looks like by then.
  pub republish_refused :
      (client : Client W) (routing : RoutingFunc W) (options : PublisherOptions) (s t : Run W)
      → ((ctx : Context) (m : PubsubMessage) (id : String) (u v : Run W)
          → topic.publish ctx m u ≡ ok id v
          → id ≢ "")
      → deliver (config client routing options) (topic_publisher topic) s ≡ ok tt t
      → (e : Error) × (deliver (config client routing options) (topic_publisher topic) t
          ≡ failed e t)
  unfolding deliver config marshal
  republish_refused client routing options s t ids h =
      refused options t (body_of t.message.payload)
        (handed-id options s t (body_of s.message.payload) ids h)
