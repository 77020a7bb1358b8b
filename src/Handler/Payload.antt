-- ===== src/Handler/Payload.antt =====
-- The error of HandleWithPayload.
use expedit.Prelude.{Bool, false, Option, none, some, ◌≡◌, ap, sym, ◌∙◌, if◌then◌else◌}
use expedit.Go.Value.{str}
use expedit.Handler.{
  Run, failed, panicked, Handler, GoType, handle_with_payload, asserted, mismatch, error_of,
}

asserted-none :
    {W T : Type 0} (ty : GoType T) (handler : T → Handler W) (s : Run W) (o : Option T)
    → ty.is_interface ≡ false
    → o ≡ none
    → error_of (asserted ty handler o s) ≡ some (mismatch ty.name "")
asserted-none ty handler s o concrete e =
    ap (λ x. error_of (asserted ty handler x s)) e
    ∙ ap
        (λ (b : Bool). error_of {A = Unit {0}} (
          if b
          then panicked (str "invalid memory address or nil pointer dereference") s
          else failed (mismatch ty.name "") s))
        concrete

-- The error that HandleWithPayload returns for a payload of the wrong type does not depend on the
-- payload: for a payload type that is no interface, two messages whose payloads both fail the
-- assertion, whatever their types, give the same error.
pub handle_with_payload_blind :
    {W T : Type 0} (ty : GoType T) (handler : T → Handler W) (s t : Run W)
    → ty.is_interface ≡ false
    → ty.assert s.message.payload ≡ none
    → ty.assert t.message.payload ≡ none
    → error_of (handle_with_payload ty handler s) ≡ error_of (handle_with_payload ty handler t)
unfolding handle_with_payload
handle_with_payload_blind ty handler s t concrete e e' =
    asserted-none ty handler s (ty.assert s.message.payload) concrete e
    ∙ sym (asserted-none ty handler t (ty.assert t.message.payload) concrete e')
