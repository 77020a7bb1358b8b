-- ===== src/Redis/Json.antt =====
-- redis/json.go. `unmarshal` and `marshal` are json.Unmarshal into a fresh value of the payload type and
-- json.Marshal, `utf8` the bytes of a text, and `type_name` the name of a value's type.
use Prim.Native.String.{◌++◌}
use expedit.Prelude.{ℕ, String, Option, none, some, List, [], ◌∷◌, ◌⊎◌, inl, inr, lookup}
use expedit.Go.Value.{Value, nil, str, bytes, dict, Error, new, to_map}
use expedit.Handler.{ok, failed, Handler}
use expedit.Middleware.Chain.{Middleware}
use expedit.Redis.Values.{XAddValuesMarshaller}

abbrev key_type : (Value → String) → Value → String
key_type type_name nil = "nil"
key_type type_name v = type_name v

abbrev wrong_type : (Value → String) → String → Value → Error
wrong_type type_name map_key v = new (
    "payload key "
    ++ (map_key
        ++ (" is of type ["
            ++ (key_type type_name v ++ "]. It must be either a byte array or string"))))

-- The bytes to read, or why there are none.
abbrev source_bytes : (String → List ℕ) → (Value → String) → String → Value → Error ⊎ List ℕ
source_bytes utf8 type_name map_key (bytes b) = inr b
source_bytes utf8 type_name map_key (str t) = inr (utf8 t)
source_bytes utf8 type_name map_key v = inl (wrong_type type_name map_key v)

abbrev payload_bytes : (String → List ℕ) → (Value → String) → String → Option Value → Error ⊎ List ℕ
payload_bytes utf8 type_name map_key none =
    inl (new ("payload key " ++ (map_key ++ " not found in message")))
payload_bytes utf8 type_name map_key (some v) = source_bytes utf8 type_name map_key v

abbrev json_bytes : (String → List ℕ) → (Value → String) → String → Value → Error ⊎ List ℕ
json_bytes utf8 type_name map_key (dict fs) =
    payload_bytes utf8 type_name map_key (lookup map_key (to_map fs))
json_bytes utf8 type_name map_key v = inl (new "payload is not a map[string]interface{}")

abbrev pub decoded : (List ℕ → Error ⊎ Value) → Error ⊎ List ℕ → Error ⊎ Value
decoded unmarshal (inl e) = inl e
decoded unmarshal (inr b) = unmarshal b

-- `msg.Payload = …; return next(msg)`, or the error.
abbrev pub with_payload : {W : Type 0} → Handler W → Error ⊎ Value → Handler W
with_payload next (inl e) s = failed e s
with_payload next (inr v) s = next (record s { message = record (s.message) { payload = v } })

unfoldable pub unmarshall_map_payload_from_json :
    {W : Type 0}
    → (String → List ℕ)
    → (Value → String)
    → (List ℕ → Error ⊎ Value)
    → String
    → Middleware W
unmarshall_map_payload_from_json utf8 type_name unmarshal map_key next s =
    with_payload next (decoded unmarshal (json_bytes utf8 type_name map_key s.message.payload)) s

-- No values at all if the payload has no JSON form.
unfoldable pub marshall_payload_to_json_map :
    {W : Type 0} → (Value → Error ⊎ List ℕ) → String → XAddValuesMarshaller W
marshall_payload_to_json_map marshal map_key s = elim (marshal s.message.payload) [
  | inl e ↦ ok [] s
  | inr b ↦ ok ((map_key, bytes b) ∷ []) s
]
