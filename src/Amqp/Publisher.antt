-- ===== src/Amqp/Publisher.antt =====
-- amqp/publisher.go. The reconnecting channel is given by its Publish and Close; a function that is nil
-- is `none`. Marshalling returns a record for each call, so no two messages share one.
pub mod Checks
use expedit.Prelude.{
  ℕ, String, Bool, true, false, ◌||◌, ltb, Option, none, some, List, [], ◌∷◌, ◌⊎◌, inl, inr, ◌==◌,
  if◌then◌else◌,
}
use expedit.Go.Value.{Value, bytes, Error, new}
use expedit.Go.Context.{Context}
use expedit.Message.{Message}
use expedit.Handler.{Run, Ret, ok, failed, panicked, Call, Handler}
use expedit.Publisher.Destinations.{RoutingFunc, Impl, Config, Destination, constant_fn}
use expedit.Amqp.Headers.{Table, HeadersProvider, metadata_as_headers}

-- The fields of amqp.Publishing that the code sets or reads.
pub record Publishing : Type 0 where
  pub content_type : String
  pub priority : ℕ
  pub delivery_mode : ℕ
  pub body : List ℕ
  pub headers : Table
  pub message_id : String

-- A modifier may change the publishing through its pointer.
abbrev pub MessageModifierFn : Type 0 → Type 0
MessageModifierFn W = Publishing → Call W Publishing

abbrev pub RoutingKeyFunc : Type 0 → Type 0
RoutingKeyFunc W = Call W String

unfoldable pub constant_routing_key : {W : Type 0} → String → RoutingKeyFunc W
constant_routing_key key s = ok key s

pub record PublisherOptions (W : Type 0) : Type 0 where
  pub headers_provider : Option HeadersProvider
  pub mandatory_msg_opt : Option (Call W Bool)
  pub immediate_msg_opt : Option (Call W Bool)
  pub message_modifier : Option (MessageModifierFn W)

abbrev pub PublisherOption : Type 0 → Type 0
PublisherOption W = PublisherOptions W → PublisherOptions W

unfoldable pub with_mandatory_msg_fn : {W : Type 0} → Call W Bool → PublisherOption W
with_mandatory_msg_fn opt opts = record opts { mandatory_msg_opt = some opt }

unfoldable pub with_immediate_msg_fn : {W : Type 0} → Call W Bool → PublisherOption W
with_immediate_msg_fn opt opts = record opts { immediate_msg_opt = some opt }

unfoldable pub with_message_modifier : {W : Type 0} → MessageModifierFn W → PublisherOption W
with_message_modifier modifier opts = record opts { message_modifier = some modifier }

unfoldable pub with_headers_provider : {W : Type 0} → Option HeadersProvider → PublisherOption W
with_headers_provider provider opts = record opts { headers_provider = provider }

unfoldable pub apply_options :
    {W : Type 0} → List (PublisherOption W) → PublisherOptions W → PublisherOptions W
apply_options [] options = options
apply_options (opt ∷ opts) options = apply_options opts (opt options)

pub record DefaultMessageOptions : Type 0 where
  pub content_type : String
  pub priority : ℕ
  pub delivery_mode : ℕ

pub record AmqpMessage : Type 0 where
  pub publishing : Publishing
  pub immediate : Bool
  pub mandatory : Bool
  pub routing_key : String

abbrev option_flag : {W : Type 0} → Option (Call W Bool) → Call W Bool
option_flag none s = ok false s
option_flag (some f) s = f s

abbrev option_modified : {W : Type 0} → Option (MessageModifierFn W) → MessageModifierFn W
option_modified none p s = ok p s
option_modified (some f) p s = f p s

abbrev option_headers : Option HeadersProvider → Message → Table
option_headers none msg = []
option_headers (some provider) msg = provider msg

abbrev then_mandatory :
    {W : Type 0} → PublisherOptions W → String → Publishing → Ret W Bool → Ret W AmqpMessage
then_mandatory options key p (ok immediate s) = elim (option_flag options.mandatory_msg_opt s) [
  | ok mandatory s' ↦
      ok
        (record { publishing = p; immediate = immediate; mandatory = mandatory; routing_key = key })
        s'
  | failed e s' ↦ failed e s'
  | panicked v s' ↦ panicked v s'
]
then_mandatory options key p (failed e s) = failed e s
then_mandatory options key p (panicked v s) = panicked v s

abbrev then_immediate :
    {W : Type 0} → PublisherOptions W → String → Ret W Publishing → Ret W AmqpMessage
then_immediate options key (ok p s) =
    then_mandatory options key p (option_flag options.immediate_msg_opt s)
then_immediate options key (failed e s) = failed e s
then_immediate options key (panicked v s) = panicked v s

abbrev then_modified :
    {W : Type 0}
    → DefaultMessageOptions
    → PublisherOptions W
    → List ℕ
    → Ret W String
    → Ret W AmqpMessage
then_modified defaults options body (ok key s) = then_immediate options key (
    option_modified options.message_modifier
      (record {
        content_type = defaults.content_type;
        priority = defaults.priority;
        delivery_mode = defaults.delivery_mode;
        body = body;
        headers = option_headers options.headers_provider s.message;
        message_id = "";
      })
      s)
then_modified defaults options body (failed e s) = failed e s
then_modified defaults options body (panicked v s) = panicked v s

abbrev pub payload_error : Error
payload_error = new "payload must be []byte. Use a middleware to convert the payload to []byte"

abbrev body_of : Value → Option (List ℕ)
body_of (bytes b) = some b
body_of v = none

-- The MessageMarshaller.
unfoldable pub marshal :
    {W : Type 0}
    → RoutingKeyFunc W
    → DefaultMessageOptions
    → PublisherOptions W
    → Call W AmqpMessage
marshal routing_key_fn defaults options s = elim (body_of s.message.payload) [
  | none ↦ failed payload_error s
  | some body ↦ then_modified defaults options body (routing_key_fn s)
]

-- The two calls of ReconnectingChannel: Publish with exchange, key, mandatory, immediate.
pub record Channel (W : Type 0) : Type 0 where
  pub publish : String → String → Bool → Bool → Publishing → Handler W
  pub close : Handler W

abbrev sent : {W : Type 0} → AmqpMessage → Ret W (Unit {0}) → Ret W AmqpMessage
sent msg (ok a s) = ok msg s
sent msg (failed e s) = failed e s
sent msg (panicked v s) = panicked v s

unfoldable pub exchange_publisher : {W : Type 0} → Channel W → Destination → Impl W AmqpMessage
exchange_publisher channel exchange = record {
  close = channel.close;
  publish = λ ctx msg s.
      sent msg
        (channel.publish exchange msg.routing_key msg.mandatory msg.immediate msg.publishing s);
  get_message_id = λ msg. msg.publishing.message_id;
}

abbrev pub transient : ℕ
transient = 1

abbrev pub persistent : ℕ
persistent = 2

-- The checks of the default options. Priority and delivery mode are bytes, so not below 0.
unfoldable pub check_defaults : DefaultMessageOptions → Option Error
check_defaults o =
    if o.content_type == ""
    then some (new "message default content type is required")
    else if ltb 9 o.priority
    then some (new "message default priority is required to be between 0 and 9")
    else if ltb o.delivery_mode transient || ltb persistent o.delivery_mode
    then some (new "message default delivery mode is required to be either transient or persistent")
    else none

abbrev pub default_options : {W : Type 0} → PublisherOptions W
default_options = record {
  headers_provider = some metadata_as_headers;
  mandatory_msg_opt = none;
  immediate_msg_opt = none;
  message_modifier = none;
}

abbrev pub unless : {A : Type 0} → Option Error → A → Error ⊎ A
unless none a = inr a
unless (some e) a = inl e

unfoldable pub new_amqp_publisher :
    {W : Type 0}
    → Channel W
    → Option (RoutingFunc W)
    → Option (RoutingKeyFunc W)
    → DefaultMessageOptions
    → List (PublisherOption W)
    → Error ⊎ Config W AmqpMessage
unfolding check_defaults
new_amqp_publisher channel none key defaults opts = inl (new "exchange routing function required")
new_amqp_publisher channel (some routing) none defaults opts =
    inl (new "routing key function required")
new_amqp_publisher channel (some routing) (some key) defaults opts =
    unless (check_defaults defaults) (record {
      routing_func = routing;
      message_marshaller = marshal key defaults (apply_options opts default_options);
      get_destination_publisher = λ dest s. ok (exchange_publisher channel dest) s;
    })
