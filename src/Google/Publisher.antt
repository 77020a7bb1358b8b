-- ===== src/Google/Publisher.antt =====
-- google/publisher.go. What the code uses of a Pub/Sub topic publisher is a record; `sprint` is
-- `fmt.Sprintf("%v", …)`.
pub mod Republish
use expedit.Prelude.{
  ℕ, String, Bool, true, false, Option, none, some, List, [], ◌∷◌, ◌⊎◌, inl, inr, ◌==◌,
  if◌then◌else◌, Map, collect, is_some,
}
use expedit.Go.Value.{Value, bytes, Error, new}
use expedit.Go.Context.{Context}
use expedit.Message.{Message, entries}
use expedit.Handler.{Run, Ret, ok, failed, panicked, Call, Handler}
use expedit.Publisher.Destinations.{RoutingFunc, Impl, Config, Destination}

-- The fields of pubsub.Message that the code uses.
pub record PubsubMessage : Type 0 where
  pub id : String
  pub body : List ℕ  -- Data
  pub ordering_key : String
  pub attributes : Map String

-- `publish` is Publish and the Get of its result, which is the server's ID.
pub record Topic (W : Type 0) : Type 0 where
  pub publish : Context → PubsubMessage → Call W String
  pub resume_publish : String → Run W → Run W
  pub stop : Run W → Run W

-- The client's publisher of a topic, with or without message ordering.
abbrev pub Client : Type 0 → Type 0
Client W = Destination → Bool → Topic W

abbrev pub OrderingKeyProvider : Type 0
OrderingKeyProvider = Message → String

abbrev pub AttributesProvider : Type 0
AttributesProvider = Message → Map String

abbrev text_attribute : (Value → String) → String → Value → Option (String × String)
text_attribute sprint key value = some (key, sprint value)

unfoldable pub metadata_as_attributes : (Value → String) → AttributesProvider
metadata_as_attributes sprint msg = collect (text_attribute sprint) (entries msg.metadata) []

pub record PublisherOptions : Type 0 where
  pub ordering_key_provider : Option OrderingKeyProvider
  pub attributes_provider : Option AttributesProvider

abbrev pub PublisherOption : Type 0
PublisherOption = PublisherOptions → PublisherOptions

unfoldable pub with_ordering_key_provider : Option OrderingKeyProvider → PublisherOption
with_ordering_key_provider provider opts = record opts { ordering_key_provider = provider }

unfoldable pub with_attributes_provider : Option AttributesProvider → PublisherOption
with_attributes_provider provider opts = record opts { attributes_provider = provider }

unfoldable pub apply_options : List PublisherOption → PublisherOptions → PublisherOptions
apply_options [] options = options
apply_options (opt ∷ opts) options = apply_options opts (opt options)

abbrev pub readonly_error : Error
readonly_error =
    new
      "message ID is readonly with the google publisher implementation. ID is generated by the server"

-- A failed publish pauses the ordering key; it is resumed.
abbrev pub published : {W : Type 0} → Topic W → PubsubMessage → Ret W String → Ret W PubsubMessage
published topic m (ok server_id s) = ok (record m { id = server_id }) s
published topic m (failed e s) =
    failed e (if m.ordering_key == "" then s else topic.resume_publish m.ordering_key s)
published topic m (panicked v s) = panicked v s

unfoldable pub topic_publish :
    {W : Type 0} → Topic W → Context → PubsubMessage → Call W PubsubMessage
topic_publish topic ctx m s =
    if m.id == "" then published topic m (topic.publish ctx m s) else failed readonly_error s

unfoldable pub get_message_id : Option PubsubMessage → String
get_message_id none = ""
get_message_id (some m) = m.id

unfoldable pub topic_publisher : {W : Type 0} → Topic W → Impl W PubsubMessage
unfolding topic_publish get_message_id
topic_publisher topic = record {
  close = λ s. ok tt (topic.stop s);
  publish = topic_publish topic;
  get_message_id = λ m. get_message_id (some m);
}

abbrev pub payload_error : Error
payload_error = new "payload must be []byte. Use a middleware to convert the payload to []byte"

abbrev pub body_of : Value → Option (List ℕ)
body_of (bytes b) = some b
body_of v = none

abbrev key_of : Option OrderingKeyProvider → Message → String
key_of none msg = ""
key_of (some provide) msg = provide msg

abbrev attributes_of : Option AttributesProvider → Message → Map String
attributes_of none msg = []
attributes_of (some provide) msg = provide msg

abbrev pub marshalled : {W : Type 0} → PublisherOptions → Option (List ℕ) → Call W PubsubMessage
marshalled options none s = failed payload_error s
marshalled options (some b) s =
    ok
      (record {
        id = s.message.id;
        body = b;
        ordering_key = key_of options.ordering_key_provider s.message;
        attributes = attributes_of options.attributes_provider s.message;
      })
      s

-- The MessageMarshaller.
unfoldable pub marshal : {W : Type 0} → PublisherOptions → Call W PubsubMessage
marshal options s = marshalled options (body_of s.message.payload) s

-- Message ordering is enabled if there is a provider of ordering keys.
unfoldable pub config :
    {W : Type 0} → Client W → RoutingFunc W → PublisherOptions → Config W PubsubMessage
unfolding marshal topic_publisher
config client routing options = record {
  routing_func = routing;
  message_marshaller = marshal options;
  get_destination_publisher =
      λ dest s. ok (topic_publisher (client dest (is_some options.ordering_key_provider))) s;
}

unfoldable pub new_google_publisher :
    {W : Type 0}
    → (Value → String)
    → Option (Client W)
    → Option (RoutingFunc W)
    → List PublisherOption
    → Error ⊎ Config W PubsubMessage
unfolding config
new_google_publisher sprint none routing opts = inl (new "client is required")
new_google_publisher sprint (some client) none opts = inl (new "routing function is required")
new_google_publisher sprint (some client) (some routing) opts = inr (
    config client routing (
      apply_options opts (record {
        ordering_key_provider = none;
        attributes_provider = some (metadata_as_attributes sprint);
      })))
