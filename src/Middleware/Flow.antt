-- ===== src/Middleware/Flow.antt =====
-- core/message/middleware/flow.go and trace.go.
pub mod Throttle
use expedit.Prelude.{ℕ, String, ◌≡◌, refl, Bool, Option, none, some, if◌then◌else◌, insert}
use expedit.Go.Value.{ℤ, Value, nil, str}
use expedit.Go.Context.{Context}
use expedit.Message.{with_metadata}
use expedit.Handler.{
  Run, Ret, ok, failed, panicked, Handler, timed, take_scope, put_context, cancel, deferred,
}
use expedit.Middleware.Chain.{Middleware}

-- The context of the message stays replaced when the handler returns, and is then cancelled.
unfoldable pub context_timeout : {W : Type 0} → ℕ → Middleware W
context_timeout timeout next s =
    deferred (cancel s.next_scope)
      (next (put_context (timed s.message.ctx timeout s) (take_scope s)))

-- MessageApplicableFn: it may change the message and the world too.
abbrev pub Applicable : Type 0 → Type 0
Applicable W = Run W → Bool × Run W

unfoldable pub conditional_execute : {W : Type 0} → Applicable W → Handler W → Middleware W
conditional_execute should_exec exec next s =
    let (applies, s') = should_exec s in if applies then exec s' else next s'

unfoldable pub conditional_skip : {W : Type 0} → Applicable W → Middleware W
unfolding conditional_execute
conditional_skip should_skip = conditional_execute should_skip (λ s. ok tt s)

-- `msg.Metadata[metadataKey] = id`: a panic if the map is nil.
abbrev set_entry : {W : Type 0} → String → Value → Handler W
set_entry key v s = elim (with_metadata s.message key v) [
  | none ↦ panicked (str "assignment to entry in nil map") s
  | some m ↦ ok tt (record s { message = m })
]

abbrev text_of : Value → Option String
text_of (str t) = some t
text_of _ = none

unfoldable pub context_key_to_metadata : {W : Type 0} → String → Value → Middleware W
context_key_to_metadata key ctx_key next s = elim (text_of (s.message.ctx.value ctx_key)) [
  | none ↦ next s
  | some id ↦ elim (set_entry key (str id) s) [
    | ok a s' ↦ next s'
    | failed e s' ↦ failed e s'
    | panicked v s' ↦ panicked v s'
  ]
]
