-- ===== src/Google/Json.antt =====
-- google/json.go: what amqp/json.go does, for payloads of Pub/Sub messages.
use expedit.Prelude.{ℕ, List, ◌⊎◌}
use expedit.Go.Value.{Value, Error}
use expedit.Middleware.Chain.{Middleware}
use expedit.Amqp.Json.{with_payload, decoded, encoded}

unfoldable pub unmarshall_payload_from_json : {W : Type 0} → (List ℕ → Error ⊎ Value) → Middleware W
unmarshall_payload_from_json unmarshal next s =
    with_payload next (decoded unmarshal s.message.payload) s

unfoldable pub marshall_payload_to_json : {W : Type 0} → (Value → Error ⊎ List ℕ) → Middleware W
marshall_payload_to_json marshal next s = with_payload next (encoded (marshal s.message.payload)) s
