-- ===== src/Google/Subscriber.antt =====
-- google/subscriber.go. What the code uses of a Pub/Sub client is a function: it runs its callback
-- for the messages that it receives. `parse_float` is strconv.ParseFloat with 64 bits, by the bits
-- of its result; `Settings` is pubsub.ReceiveSettings.
pub mod Attributes
use expedit.Prelude.{
  ℕ, ◌*◌, String, Bool, true, false, Option, none, some, List, [], ◌∷◌, ◌⊎◌, inl, inr,
  if◌then◌else◌, Map, collect,
}
use expedit.Go.Value.{
  ℤ, pos, Value, str, bytes, int, boolean, other, Error, new, sentinel, wrap, join, also, only,
}
use expedit.Go.Context.{Context}
use expedit.Go.Number.{parse_int, parse_bool}
use expedit.Message.{Message, Metadata, new_message}
use expedit.Handler.{Run, Ret, ok, failed, panicked, Call, Handler}
use expedit.Subscriber.Dispatcher.{Delivery, DispatchOptions, Dispatcher, new_dispatcher, handle}

-- 600 seconds.
abbrev pub default_processing_timeout : ℕ
default_processing_timeout = 600 * 1000000000

pub record SubscriberOptions (Settings : Type 0) : Type 0 where
  pub processing_timeout : ℤ
  pub receive_settings : Settings
  pub parse_attributes : Bool

abbrev pub SubscriberOption : Type 0 → Type 0
SubscriberOption Settings = SubscriberOptions Settings → SubscriberOptions Settings

unfoldable pub with_processing_timeout : {Settings : Type 0} → ℤ → SubscriberOption Settings
with_processing_timeout timeout opts = record opts { processing_timeout = timeout }

unfoldable pub with_receive_settings : {Settings : Type 0} → Settings → SubscriberOption Settings
with_receive_settings settings opts = record opts { receive_settings = settings }

unfoldable pub with_parse_attributes : {Settings : Type 0} → Bool → SubscriberOption Settings
with_parse_attributes parse_attributes opts = record opts { parse_attributes = parse_attributes }

abbrev pub err_subscription_not_found : Error
err_subscription_not_found = sentinel "subscription does not exist"

-- A message that the client has received.
pub record Received (W : Type 0) : Type 0 where
  pub id : String
  pub body : List ℕ  -- Data
  pub attributes : Map String
  pub ack : Run W → Run W
  pub nack : Run W → Run W

-- `client.Subscriber(name)` with its ReceiveSettings, and the Receive of that.
abbrev pub Client : Type 0 → Type 0 → Type 0
Client Settings W = String → Settings → Context → (Context → Received W → Handler W) → Handler W

pub record GoogleSubscriber (Settings W : Type 0) : Type 0 where
  pub client : Client Settings W
  pub subscription : String
  pub options : SubscriberOptions Settings

unfoldable pub apply_options :
    {Settings : Type 0}
    → List (SubscriberOption Settings)
    → SubscriberOptions Settings
    → SubscriberOptions Settings
apply_options [] options = options
apply_options (opt ∷ opts) options = apply_options opts (opt options)

-- `zero` is the zero value of the settings.
unfoldable pub new_google_subscriber :
    {Settings W : Type 0}
    → Settings
    → Option (Client Settings W)
    → String
    → List (SubscriberOption Settings)
    → Error ⊎ GoogleSubscriber Settings W
unfolding apply_options
new_google_subscriber unset none subscription opts = inl (new "client is required")
new_google_subscriber unset (some c) subscription opts = inr (record {
  client = c;
  subscription = subscription;
  options = apply_options opts (record {
    processing_timeout = pos default_processing_timeout;
    receive_settings = unset;
    parse_attributes = false;
  });
})

abbrev float64 : ℕ → Value
float64 f = other "float64" f

abbrev pub or_text : String → Option ℕ → Value
or_text v (some f) = float64 f
or_text v none = str v

abbrev pub or_float : (String → Option ℕ) → String → Option Bool → Value
or_float parse_float v (some b) = boolean b
or_float parse_float v none = or_text v (parse_float v)

abbrev pub or_boolean : (String → Option ℕ) → String → Option ℤ → Value
or_boolean parse_float v (some i) = int i
or_boolean parse_float v none = or_float parse_float v (parse_bool v)

-- The integer, the boolean or the float that the text is, or the text.
unfoldable pub parse_as_primitive_type : (String → Option ℕ) → String → Value
parse_as_primitive_type parse_float v = or_boolean parse_float v (parse_int v)

-- The body of the loop over the attributes.
abbrev pub metadata_entry : (String → Option ℕ) → Bool → String → String → Option (String × Value)
metadata_entry parse_float parse_attributes k v =
    some (k, if parse_attributes then parse_as_primitive_type parse_float v else str v)

module _ {Settings W : Type 0} (parse_float : String → Option ℕ)
    (sub : GoogleSubscriber Settings W) where
  unfoldable pub to_message : Context → Received W → Message
  to_message ctx m = record (new_message ctx (bytes m.body)) {
    id = m.id;
    metadata =
        some (collect (metadata_entry parse_float sub.options.parse_attributes) m.attributes []);
  }

  unfoldable pub delivery : Context → Received W → Delivery W
  unfolding to_message
  delivery ctx m = record {
    message = to_message ctx m;
    ack = λ c s. ok tt (m.ack s);
    nack = λ c s. ok tt (m.nack s);
  }

  -- The other fields of the options are zero.
  unfoldable pub dispatch_options : DispatchOptions W
  dispatch_options = record {
    max_in_flight = pos 0;
    processing_timeout = sub.options.processing_timeout;
    on_ack_error = none;
    on_nack_error = none;
  }

  -- `is_not_found` is `status.Code(err) == codes.NotFound`. errors.Is finds both errors that are
  -- wrapped.
  abbrev pub receive_result : (Error → Bool) → Ret W (Unit {0}) → Ret W (Unit {0})
  receive_result is_not_found (ok a s) = ok a s
  receive_result is_not_found (failed e s) =
      if is_not_found e
      then failed (wrap sub.subscription (join (also err_subscription_not_found (only e)))) s
      else failed e s
  receive_result is_not_found (panicked v s) = panicked v s

  unfoldable pub receive : (Error → Bool) → Context → Handler W → Handler W
  unfolding delivery dispatch_options
  receive is_not_found ctx handler s =
      let d = new_dispatcher handler dispatch_options in
      receive_result is_not_found (
        sub.client sub.subscription sub.options.receive_settings ctx
          (λ callback_ctx m. handle d (delivery callback_ctx m)) s)
