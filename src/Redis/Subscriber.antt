-- ===== src/Redis/Subscriber.antt =====
-- redis/subscriber.go: the options and the constructor. Durations are in nanoseconds.
pub mod Receiving
pub mod Timeouts
use expedit.Prelude.{
  ℕ, zero, suc, ◌*◌, ◌/◌, String, Bool, true, false, not, ◌&&◌, ◌||◌, Option, none, some, List, [],
  ◌∷◌, ◌==◌, if◌then◌else◌, ◌⊎◌, inl, inr,
}
use expedit.Go.Value.{ℤ, pos, negsuc, is_positive, lt_int, Error, new}
use expedit.Middleware.Errors.{Callback}
use expedit.Subscriber.Dispatcher.{default_max_in_flight}
use expedit.Redis.Values.{Extractor}

-- StartPosition is a string.
abbrev pub start_from_beginning : String
start_from_beginning = "0"

abbrev pub start_from_latest : String
start_from_latest = "$"

pub record SubscriberOptions (W : Type 0) : Type 0 where
  pub consumer_group : String
  pub create_stream_if_missing : Bool
  pub consumer_group_start_id : String
  pub start_id : String
  pub processing_timeout : Option ℤ
  pub metadata_extractor : Option Extractor
  pub payload_extractor : Option Extractor
  pub pending_message_idle_timeout : ℤ
  pub pending_message_batch_size : ℤ
  pub max_in_flight : ℤ
  pub block_timeout : ℤ
  pub on_ack_error : Option (Callback W)

abbrev pub SubscriberOption : Type 0 → Type 0
SubscriberOption W = SubscriberOptions W → SubscriberOptions W

unfoldable pub with_consumer_group : {W : Type 0} → String → SubscriberOption W
with_consumer_group group opts = record opts { consumer_group = group }

unfoldable pub with_consumer_group_create_stream_if_missing :
    {W : Type 0} → Bool → SubscriberOption W
with_consumer_group_create_stream_if_missing create opts = record opts {
  create_stream_if_missing = create;
}

unfoldable pub with_consumer_group_start_id : {W : Type 0} → String → SubscriberOption W
with_consumer_group_start_id start opts = record opts { consumer_group_start_id = start }

unfoldable pub with_start_id : {W : Type 0} → String → SubscriberOption W
with_start_id start opts = record opts { start_id = start }

unfoldable pub with_processing_timeout : {W : Type 0} → ℤ → SubscriberOption W
with_processing_timeout timeout opts = record opts { processing_timeout = some timeout }

-- An extractor may be nil here too.
unfoldable pub with_metadata_extractor : {W : Type 0} → Option Extractor → SubscriberOption W
with_metadata_extractor extractor opts = record opts { metadata_extractor = extractor }

unfoldable pub with_payload_extractor : {W : Type 0} → Option Extractor → SubscriberOption W
with_payload_extractor extractor opts = record opts { payload_extractor = extractor }

unfoldable pub with_pending_message_idle_timeout : {W : Type 0} → ℤ → SubscriberOption W
with_pending_message_idle_timeout timeout opts = record opts {
  pending_message_idle_timeout = timeout;
}

unfoldable pub with_pending_message_batch_size : {W : Type 0} → ℤ → SubscriberOption W
with_pending_message_batch_size size opts = record opts { pending_message_batch_size = size }

unfoldable pub with_max_in_flight : {W : Type 0} → ℤ → SubscriberOption W
with_max_in_flight max opts = record opts { max_in_flight = max }

unfoldable pub with_block_timeout : {W : Type 0} → ℤ → SubscriberOption W
with_block_timeout timeout opts = record opts { block_timeout = timeout }

unfoldable pub with_ack_error_handler : {W : Type 0} → Option (Callback W) → SubscriberOption W
with_ack_error_handler handler opts = record opts { on_ack_error = handler }

abbrev pub seconds : ℕ → ℤ
seconds n = pos (n * 1000000000)

abbrev pub default_options : {W : Type 0} → SubscriberOptions W
default_options = record {
  consumer_group = "";
  create_stream_if_missing = false;
  consumer_group_start_id = start_from_latest;
  start_id = start_from_latest;
  processing_timeout = none;
  metadata_extractor = none;
  payload_extractor = none;
  pending_message_idle_timeout = seconds 300;
  pending_message_batch_size = pos 10;
  max_in_flight = pos default_max_in_flight;
  block_timeout = seconds 2;
  on_ack_error = none;
}

unfoldable pub apply_options :
    {W : Type 0} → List (SubscriberOption W) → SubscriberOptions W → SubscriberOptions W
apply_options [] options = options
apply_options (opt ∷ opts) options = apply_options opts (opt options)

-- `-n`
abbrev negated : ℕ → ℤ
negated zero = pos 0
negated (suc n) = negsuc n

-- `d * 4 / 5`, which truncates towards 0, for timeouts whose fourfold fits in 64 bits.
unfoldable pub four_fifths : ℤ → ℤ
four_fifths (pos n) = pos (n * 4 / 5)
four_fifths (negsuc n) = negated (suc n * 4 / 5)

pub record RedisSubscriber (W : Type 0) : Type 0 where
  pub stream : String
  pub options : SubscriberOptions W
  pub processing_timeout : ℤ

abbrev pub chosen_from : Option ℤ → ℤ → ℤ
chosen_from none idle = four_fifths idle
chosen_from (some timeout) idle = timeout

abbrev pub chosen_timeout : {W : Type 0} → SubscriberOptions W → ℤ
chosen_timeout o = chosen_from o.processing_timeout o.pending_message_idle_timeout

-- The text of the error, less the two timeouts that it names.
abbrev pub timeout_error : Error
timeout_error =
    new
      "processing timeout must be positive and below the pending message idle timeout in consumer group mode, otherwise another consumer could claim a message that is still being processed"

-- The end of the constructor, after the options are applied.
unfoldable pub checked : {W : Type 0} → String → SubscriberOptions W → ℤ → Error ⊎ RedisSubscriber W
checked stream options timeout =
    if not (options.consumer_group == "")
      && (not (is_positive timeout) || not (lt_int timeout options.pending_message_idle_timeout))
    then inl timeout_error
    else inr (record { stream = stream; options = options; processing_timeout = timeout })

-- The first argument says whether there is a client.
unfoldable pub new_redis_subscriber :
    {W : Type 0} → Bool → String → List (SubscriberOption W) → Error ⊎ RedisSubscriber W
unfolding checked
new_redis_subscriber false stream opts = inl (new "client is required")
new_redis_subscriber true stream opts =
    let options = apply_options opts default_options in
    checked stream options (chosen_timeout options)
