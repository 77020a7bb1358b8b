-- ===== src/Amqp/Json.antt =====
-- amqp/json.go. `unmarshal` and `marshal` are
-- json.Unmarshal into a fresh value of the payload type and json.Marshal.
pub mod RoundTrip
use expedit.Prelude.{ℕ, List, ◌⊎◌, inl, inr}
use expedit.Go.Value.{Value, bytes, Error, new}
use expedit.Handler.{failed, Handler}
use expedit.Middleware.Chain.{Middleware}

-- `msg.Payload = …; return next(msg)`, or the error.
abbrev pub with_payload : {W : Type 0} → Handler W → Error ⊎ Value → Handler W
with_payload next (inl e) s = failed e s
with_payload next (inr v) s = next (record s { message = record (s.message) { payload = v } })

abbrev pub decoded : (List ℕ → Error ⊎ Value) → Value → Error ⊎ Value
decoded unmarshal (bytes b) = unmarshal b
decoded unmarshal v = inl (new "payload is not a byte array")

unfoldable pub unmarshall_payload_from_json : {W : Type 0} → (List ℕ → Error ⊎ Value) → Middleware W
unmarshall_payload_from_json unmarshal next s =
    with_payload next (decoded unmarshal s.message.payload) s

abbrev pub encoded : Error ⊎ List ℕ → Error ⊎ Value
encoded (inl e) = inl e
encoded (inr b) = inr (bytes b)

unfoldable pub marshall_payload_to_json : {W : Type 0} → (Value → Error ⊎ List ℕ) → Middleware W
marshall_payload_to_json marshal next s = with_payload next (encoded (marshal s.message.payload)) s
