-- ===== src/Amqp/Json/RoundTrip.antt =====
-- A payload that is written as JSON and read again.
use expedit.Prelude.{ℕ, List, ◌⊎◌, inr, ◌≡◌, ap, ◌∙◌}
use expedit.Go.Value.{Value, bytes, Error}
use expedit.Handler.{Run, Handler}
use expedit.Amqp.Json.{
  marshall_payload_to_json, unmarshall_payload_from_json, with_payload, encoded,
}

-- Where a payload has a JSON form that reads back as the payload, MarshallPayloadToJson in front of
-- UnmarshallPayloadFromJson in front of a handler is the handler: it gets the very message.
pub json_round_trip :
    {W : Type 0} (marshal : Value → Error ⊎ List ℕ) (unmarshal : List ℕ → Error ⊎ Value)
    (next : Handler W) (s : Run W) (b : List ℕ)
    → marshal s.message.payload ≡ inr b
    → unmarshal b ≡ inr s.message.payload
    → marshall_payload_to_json marshal (unmarshall_payload_from_json unmarshal next) s ≡ next s
unfolding marshall_payload_to_json unmarshall_payload_from_json
json_round_trip marshal unmarshal next s b written read =
    ap (λ x. with_payload (unmarshall_payload_from_json unmarshal next) (encoded x) s) written
    ∙ ap
        (λ x. with_payload next x (record s { message = record (s.message) { payload = bytes b } }))
        read
