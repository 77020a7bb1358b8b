-- ===== src/Tests/Google.antt =====
-- A Google publisher and a Google subscriber at concrete inputs.
use expedit.Prelude.{
  lookup, collect, insert, arith, ℕ, String, false, true, none, some, [], ◌∷◌, ◌≡◌, refl, ◌∙◌, ap,
  eq_iff,
}
use expedit.Go.Value.{Value, str, int, boolean, pos, negsuc, bytes, Error}
use expedit.Message.{Message, entries}
use expedit.Go.Context.{background}
use expedit.Handler.{Run, Ret, ok, failed, panicked}
use expedit.Publisher.Destinations.{Config, deliver}
use expedit.Google.Publisher.{
  PubsubMessage, Topic, PublisherOptions, config, topic_publisher, topic_publish, marshal,
  get_message_id,
}
use expedit.Google.Publisher.Republish.{republish_refused}
use expedit.Google.Publisher.{metadata_as_attributes}
use expedit.Google.Subscriber.{GoogleSubscriber, Received, to_message, parse_as_primitive_type}
use expedit.Google.Subscriber.Attributes.{Prints, IsDelivered, attributes_arrive}
use expedit.Go.Number.{format_int, parse_int, parse_bool}

-- The world counts the messages that the server has got.
abbrev topic : Topic ℕ
topic = record {
  publish = λ ctx m s. ok "77" (record s { world = 1 });
  resume_publish = λ key s. s;
  stop = λ s. s;
}

abbrev options : PublisherOptions
options = record { ordering_key_provider = none; attributes_provider = none }

abbrev setup : Config ℕ PubsubMessage
setup = config (λ dest ordered. topic) (λ s. ok "orders" s) options

abbrev before : Run ℕ
before = record {
  message = record { id = ""; metadata = some []; payload = bytes (5 ∷ []); ctx = background };
  world = 0;
  now = 0;
  next_scope = 0;
  cancelled = [];
}

abbrev after : Run ℕ
after = record before {
  message = record { id = "77"; metadata = some []; payload = bytes (5 ∷ []); ctx = background };
  world = 1;
}

abbrev id_of : Ret ℕ String → String
id_of (ok id s) = id
id_of (failed e s) = ""
id_of (panicked v s) = ""

republish_refused_example :
    (e : Error) × (deliver setup (topic_publisher topic) after ≡ failed e after)
unfolding deliver config marshal topic_publisher topic_publish get_message_id
republish_refused_example =
    republish_refused topic (λ dest ordered. topic) (λ s. ok "orders" s) options before after
      (λ ctx m id u v e n. let h : false ≡ true = (eq_iff "77" "").1 (ap id_of e ∙ n) in cc) refl

-- Overflow, and what is no integer.
minimum_read : parse_int "-9223372036854775808" ≡ some (negsuc 9223372036854775807)
unfolding parse_int
minimum_read = refl

maximum_passed : parse_int "9223372036854775808" ≡ none
unfolding parse_int
maximum_passed = refl

one_is_integer : parse_as_primitive_type (λ v. none) "1" ≡ int (pos 1)
unfolding parse_as_primitive_type parse_int
one_is_integer = refl

t_is_true : parse_as_primitive_type (λ v. none) "t" ≡ boolean true
unfolding parse_as_primitive_type parse_int parse_bool
t_is_true = refl

abbrev print : Value → String
print (str s) = s
print (int i) = format_int i
print (boolean true) = "true"
print (boolean false) = "false"
print v = "?"

prints : Prints print
prints = record { text = λ s. refl; number = λ i. refl; truth = refl; falsity = refl }

abbrev sent : Message
sent = record {
  id = "";
  metadata = some (("retries", int (negsuc 41)) ∷ []);
  payload = bytes (5 ∷ []);
  ctx = background;
}

abbrev received : Received ℕ
received = record {
  id = "77";
  body = 5 ∷ [];
  attributes = ("retries", "-42") ∷ [];
  ack = λ s. s;
  nack = λ s. s;
}

abbrev google_subscriber : GoogleSubscriber Unit ℕ
google_subscriber = record {
  client = λ name settings ctx callback s. ok tt s;
  subscription = "orders";
  options = record { processing_timeout = pos 600; receive_settings = tt; parse_attributes = true };
}

delivered : IsDelivered (metadata_as_attributes print sent) received
unfolding metadata_as_attributes collect insert format_int lookup
delivered = record { each = λ key. refl; once = (refl, tt) }

attributes_arrive_example :
    lookup "retries"
      (entries (to_message (λ v. none) google_subscriber background received).metadata)
    ≡ some (int (negsuc 41))
unfolding lookup
attributes_arrive_example =
    attributes_arrive print (λ v. none) prints google_subscriber background sent received "retries"
      (int (negsuc 41)) (refl, tt) delivered refl (omega arith)
