-- ===== src/Handler.antt =====
-- core/message/handler.go, and what a handler runs in. A handler gets a pointer to the message and
-- may change it, so the message is part of the state that it runs on, beside the clock, the
-- cancellation scopes and a world of the caller's choice (brokers, counters, channels).
pub mod Payload
use expedit.Prelude.{
  ℕ, suc, String, Bool, true, false, Option, none, some, List, ◌∷◌, if◌then◌else◌,
}
use Prim.Native.String.{◌++◌}
use expedit.Go.Value.{Error, new, Value, str, err}
use expedit.Go.Context.{Context, with_timeout, context_err}
use expedit.Message.{Message, set_context}

pub record Run (W : Type 0) : Type 0 where
  pub message : Message
  pub world : W
  pub now : ℕ
  pub next_scope : ℕ  -- the scopes below it are taken
  pub cancelled : List ℕ

-- How a call ends: it returns, it returns an error, or it panics.
pub data Ret (W A : Type 0) : Type 0 where
  ok : A → Run W → Ret W A
  failed : Error → Run W → Ret W A
  panicked : Value → Run W → Ret W A

abbrev pub Call : Type 0 → Type 0 → Type 0
Call W A = Run W → Ret W A

-- HandlerFunc: `ok tt` is the nil error.
abbrev pub Handler : Type 0 → Type 0
Handler W = Call W (Unit {0})

-- The final state, however the call ends.
abbrev pub final : {W A : Type 0} → Ret W A → Run W
final (ok a s) = s
final (failed e s) = s
final (panicked v s) = s

-- `ctx.Err()` now.
abbrev pub err_of : {W : Type 0} → Run W → Context → Option Error
err_of s c = context_err s.cancelled s.now c

abbrev pub put_context : {W : Type 0} → Context → Run W → Run W
put_context c s = record s { message = set_context s.message c }

abbrev pub cancel : {W : Type 0} → ℕ → Run W → Run W
cancel scope s = record s { cancelled = scope ∷ s.cancelled }

-- `context.WithTimeout(c, timeout)`: the context, and the state in which its scope is taken.
abbrev pub timed : {W : Type 0} → Context → ℕ → Run W → Context
timed c timeout s = with_timeout c s.next_scope s.now timeout

abbrev pub take_scope : {W : Type 0} → Run W → Run W
take_scope s = record s { next_scope = suc s.next_scope }

-- A call, and what follows it if it returns.
abbrev pub then_call : {W A B : Type 0} → Ret W A → (A → Call W B) → Ret W B
then_call (ok a s) f = f a s
then_call (failed e s) f = failed e s
then_call (panicked v s) f = panicked v s

-- `if err != nil { panic(err) }`
abbrev pub must : {W A : Type 0} → Ret W A → Ret W A
must (ok a s) = ok a s
must (failed e s) = panicked (err e) s
must (panicked v s) = panicked v s

-- A deferred call: it runs however the call ends.
abbrev pub deferred : {W A : Type 0} → (Run W → Run W) → Ret W A → Ret W A
deferred f (ok a s) = ok a (f s)
deferred f (failed e s) = failed e (f s)
deferred f (panicked v s) = panicked v (f s)

-- The type argument of HandleWithPayload: its name, whether it is an interface type, and the type
-- assertion `v.(T)`.
pub record GoType (T : Type 0) : Type 0 where
  pub name : String
  pub is_interface : Bool
  pub assert : Value → Option T

abbrev pub mismatch : String → String → Error
mismatch actual expected = new (
    "payload type ["
    ++ (actual ++ ("] does not match handler expected payload type [" ++ (expected ++ "]"))))

-- After a failed assertion `payload` is the zero value of T: its type is T, or none at all if T is
-- an interface type, and then `Name` panics. The type of `new(T)` is a pointer type, which has no
-- name.
abbrev pub asserted : {W T : Type 0} → GoType T → (T → Handler W) → Option T → Handler W
asserted ty handler (some payload) s = handler payload s
asserted ty handler none s =
    if ty.is_interface
    then panicked (str "invalid memory address or nil pointer dereference") s
    else failed (mismatch ty.name "") s

unfoldable pub handle_with_payload : {W T : Type 0} → GoType T → (T → Handler W) → Handler W
handle_with_payload ty handler s = asserted ty handler (ty.assert s.message.payload) s

abbrev pub panics : {W A : Type 0} → Ret W A → Bool
panics (ok a s) = false
panics (failed e s) = false
panics (panicked v s) = true

-- The error that a call returns; none if it returns nil or panics.
abbrev pub error_of : {W A : Type 0} → Ret W A → Option Error
error_of (ok a s) = none
error_of (failed e s) = some e
error_of (panicked v s) = none
