-- ===== src/Redis/Publisher.antt =====
-- redis/publisher.go. The calls of the redis client are arguments; an option that is not given is
-- `none`, as is an argument that is nil.
use expedit.Prelude.{
  String, Bool, false, Option, none, some, List, [], ◌∷◌, ◌⊎◌, inl, inr, Map, collect,
}
use expedit.Go.Value.{ℤ, pos, Value, Error, new}
use expedit.Go.Context.{Context}
use expedit.Message.{entries}
use expedit.Handler.{Ret, ok, failed, panicked, Call, Handler}
use expedit.Publisher.Destinations.{RoutingFunc, Impl, Config, Destination}
use expedit.Redis.Values.{XAddValuesMarshaller, Entry}

-- The fields of redis.XAddArgs that the code sets.
pub record XAddArgs : Type 0 where
  pub stream : String
  pub values : Map Value
  pub max_len : ℤ
  pub approx : Bool
  pub id : String

abbrev pub IdGenerator : Type 0 → Type 0
IdGenerator W = Call W String

pub record PublisherOptions (W : Type 0) : Type 0 where
  pub id_generator : Option (IdGenerator W)
  pub maxlen : ℤ
  pub approx : Bool
  pub metadata_marshaller : Option (XAddValuesMarshaller W)

abbrev pub PublisherOption : Type 0 → Type 0
PublisherOption W = PublisherOptions W → PublisherOptions W

unfoldable pub with_id_generator : {W : Type 0} → IdGenerator W → PublisherOption W
with_id_generator id_gen opts = record opts { id_generator = some id_gen }

unfoldable pub with_maxlen : {W : Type 0} → ℤ → PublisherOption W
with_maxlen maxlen opts = record opts { maxlen = maxlen }

unfoldable pub with_approx : {W : Type 0} → Bool → PublisherOption W
with_approx approx opts = record opts { approx = approx }

unfoldable pub with_metadata_marshaller : {W : Type 0} → XAddValuesMarshaller W → PublisherOption W
with_metadata_marshaller marshaller opts = record opts { metadata_marshaller = some marshaller }

-- The options before any is applied: the zero value.
abbrev no_options : {W : Type 0} → PublisherOptions W
no_options = record {
  id_generator = none;
  maxlen = pos 0;
  approx = false;
  metadata_marshaller = none;
}

unfoldable pub apply_options :
    {W : Type 0} → List (PublisherOption W) → PublisherOptions W → PublisherOptions W
apply_options [] options = options
apply_options (opt ∷ opts) options = apply_options opts (opt options)

-- `for k, v := range written { values[k] = v }`
abbrev pub same_entry : String → Value → Option Entry
same_entry key value = some (key, value)

unfoldable pub write_all : Map Value → Map Value → Map Value
write_all written values = collect same_entry written values

-- The values that are metadata: what the option makes of them, or all of them.
abbrev metadata_values : {W : Type 0} → PublisherOptions W → XAddValuesMarshaller W
metadata_values options s = elim options.metadata_marshaller [
  | none ↦ ok (entries s.message.metadata) s
  | some marshaller ↦ marshaller s
]

abbrev pub entry_id : {W : Type 0} → PublisherOptions W → Call W String
entry_id options s = elim options.id_generator [
  | none ↦ ok s.message.id s
  | some generate ↦ generate s
]

abbrev pub with_id : {W : Type 0} → PublisherOptions W → Map Value → Ret W String → Ret W XAddArgs
with_id options values (ok id s) =
    ok
      (record {
        stream = "";
        values = values;
        max_len = options.maxlen;
        approx = options.approx;
        id = id;
      })
      s
with_id options values (failed e s) = failed e s
with_id options values (panicked v s) = panicked v s

-- A marshaller returns no error; `failed` is what a call of its type may do and it does not.
abbrev pub with_payload :
    {W : Type 0} → PublisherOptions W → Map Value → Ret W (Map Value) → Ret W XAddArgs
with_payload options values (ok payload s) =
    with_id options (write_all payload values) (entry_id options s)
with_payload options values (failed e s) = failed e s
with_payload options values (panicked v s) = panicked v s

abbrev with_metadata :
    {W : Type 0} → PublisherOptions W → XAddValuesMarshaller W → Ret W (Map Value) → Ret W XAddArgs
with_metadata options payload_marshaller (ok metadata s) =
    with_payload options (write_all metadata []) (payload_marshaller s)
with_metadata options payload_marshaller (failed e s) = failed e s
with_metadata options payload_marshaller (panicked v s) = panicked v s

-- The MessageMarshaller: metadata first, so a payload value with the same key wins.
unfoldable pub marshal :
    {W : Type 0} → PublisherOptions W → XAddValuesMarshaller W → Call W XAddArgs
marshal options payload_marshaller s =
    with_metadata options payload_marshaller (metadata_values options s)

unfoldable pub get_message_id : Option XAddArgs → String
get_message_id none = ""
get_message_id (some args) = args.id

abbrev sent : {W : Type 0} → XAddArgs → Ret W (Unit {0}) → Ret W XAddArgs
sent args (ok a s) = ok args s
sent args (failed e s) = failed e s
sent args (panicked v s) = panicked v s

-- Stream: `x_add` is the client's XAdd and the error of its command.
unfoldable pub stream_publisher :
    {W : Type 0} → (Context → XAddArgs → Handler W) → Destination → Impl W XAddArgs
unfolding get_message_id
stream_publisher x_add name = record {
  close = λ s. ok tt s;
  publish = λ ctx args s.
      sent (record args { stream = name }) (x_add ctx (record args { stream = name }) s);
  get_message_id = λ args. get_message_id (some args);
}

unfoldable pub new_redis_publisher :
    {W : Type 0}
    → Option (Context → XAddArgs → Handler W)
    → Option (RoutingFunc W)
    → Option (XAddValuesMarshaller W)
    → List (PublisherOption W)
    → Error ⊎ Config W XAddArgs
new_redis_publisher none routing payload opts = inl (new "client is required")
new_redis_publisher (some x_add) none payload opts = inl (new "routing function is required")
new_redis_publisher (some x_add) (some routing) none opts =
    inl (new "payloadMarshaller is required")
new_redis_publisher (some x_add) (some routing) (some payload) opts = inr (record {
  routing_func = routing;
  message_marshaller = marshal (apply_options opts no_options) payload;
  get_destination_publisher = λ dest s. ok (stream_publisher x_add dest) s;
})
