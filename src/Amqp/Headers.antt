-- ===== src/Amqp/Headers.antt =====
-- amqp/headers.go, and MetadataAsHeaders of amqp/publisher.go. A table of headers is a map;
-- `sprint` is `fmt.Sprintf("%v", …)`, whose results on values of foreign types are not ours.
pub mod Prefixes
use Prim.Native.String.{◌++◌}
use expedit.Prelude.{
  String, Bool, not, Option, none, some, [], ◌∷◌, Map, if◌then◌else◌, has_prefix, trim_prefix,
  collect,
}
use expedit.Go.Value.{Value, str}
use expedit.Message.{Message, Metadata, entries, with_metadata}

abbrev pub Table : Type 0
Table = Map Value

abbrev pub HeadersProvider : Type 0
HeadersProvider = Message → Table

abbrev pub Header : Type 0
Header = String × Value

abbrev pub text_header : (Value → String) → String → Value → Option Header
text_header sprint key value = some (key, str (sprint value))

unfoldable pub headers_as_metadata : (Value → String) → Table → Metadata
headers_as_metadata sprint headers = some (collect (text_header sprint) headers [])

unfoldable pub metadata_as_headers : HeadersProvider
metadata_as_headers msg = entries msg.metadata

abbrev pub prefixed_header : String → String → Value → Option Header
prefixed_header prefix key value = some (prefix ++ key, value)

unfoldable pub prefixed_headers_provider : String → HeadersProvider
prefixed_headers_provider prefix msg = collect (prefixed_header prefix) (entries msg.metadata) []

abbrev pub filtered_header : (String → Bool) → String → Value → Option Header
filtered_header filter key value = if filter key then some (key, value) else none

unfoldable pub filtered_headers_provider : (String → Bool) → HeadersProvider
filtered_headers_provider filter msg = collect (filtered_header filter) (entries msg.metadata) []

unfoldable pub exclude_prefix_headers_provider : String → HeadersProvider
unfolding filtered_headers_provider
exclude_prefix_headers_provider prefix =
    filtered_headers_provider (λ key. not (has_prefix key prefix))

unfoldable pub only_prefix_headers_provider : String → HeadersProvider
unfolding filtered_headers_provider
only_prefix_headers_provider prefix = filtered_headers_provider (λ key. has_prefix key prefix)

abbrev pub clean_header : (Value → String) → String → String → Value → Option Header
clean_header sprint prefix key value =
    if has_prefix key prefix then some (trim_prefix key prefix, str (sprint value)) else none

unfoldable pub extract_prefixed_metadata : (Value → String) → Table → String → Metadata
extract_prefixed_metadata sprint headers prefix =
    some (collect (clean_header sprint prefix) headers [])

-- A write to a nil metadata map panics (`none`).
abbrev merge_onto : (Value → String) → Option Message → Table → Option Message
merge_onto sprint none headers = none
merge_onto sprint (some msg) [] = some msg
merge_onto sprint (some msg) ((key, value) ∷ headers) =
    merge_onto sprint (with_metadata msg key (str (sprint value))) headers

unfoldable pub merge_headers_to_metadata : (Value → String) → Message → Table → Option Message
merge_headers_to_metadata sprint msg headers = merge_onto sprint (some msg) headers
