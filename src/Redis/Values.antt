-- ===== src/Redis/Values.antt =====
-- redis/values.go: which values of a stream entry are metadata and which are payload.
use Prim.Native.String.{◌++◌}
use expedit.Prelude.{
  String, Option, none, some, [], Map, if◌then◌else◌, not, has_prefix, trim_prefix, collect,
}
use expedit.Go.Value.{Value, str}
use expedit.Message.{entries}
use expedit.Handler.{ok, Call}

-- The fields of redis.XMessage.
pub record XMessage : Type 0 where
  pub id : String
  pub values : Map Value

pub record MessageWrapper : Type 0 where
  pub stream : String
  pub consumer_group : String
  pub msg : XMessage

-- A nil map that a marshaller returns reads as the empty one.
abbrev pub XAddValuesMarshaller : Type 0 → Type 0
XAddValuesMarshaller W = Call W (Map Value)

abbrev pub Extractor : Type 0
Extractor = MessageWrapper → Map Value

abbrev pub Entry : Type 0
Entry = String × Value

abbrev pub prefix_entry : String → String → Value → Option Entry
prefix_entry prefix key value = some (prefix ++ key, value)

unfoldable pub metadata_with_prefix : {W : Type 0} → String → XAddValuesMarshaller W
metadata_with_prefix prefix s = ok (collect (prefix_entry prefix) (entries s.message.metadata) []) s

-- `if s, ok := v.(string); ok { metadata[key] = s }`
abbrev pub text_entry : String → Value → Option Entry
text_entry key (str text) = some (key, str text)
text_entry key _ = none

abbrev pub metadata_entry : String → String → Value → Option Entry
metadata_entry prefix key value =
    if has_prefix key prefix then text_entry (trim_prefix key prefix) value else none

unfoldable pub prefix_metadata_extractor : String → Extractor
prefix_metadata_extractor prefix wrapper = collect (metadata_entry prefix) wrapper.msg.values []

abbrev pub payload_entry : String → String → Value → Option Entry
payload_entry prefix key value =
    if has_prefix key prefix then some (trim_prefix key prefix, value) else none

unfoldable pub prefix_payload_extractor : String → Extractor
prefix_payload_extractor prefix wrapper = collect (payload_entry prefix) wrapper.msg.values []

abbrev pub plain_entry : String → String → Value → Option Entry
plain_entry prefix key value = if not (has_prefix key prefix) then some (key, value) else none

unfoldable pub non_prefix_payload_extractor : String → Extractor
non_prefix_payload_extractor prefix wrapper = collect (plain_entry prefix) wrapper.msg.values []
