-- ===== src/Subscriber/Dispatcher/Contexts.antt =====
-- The contexts that Handle gives to the handler and to the acknowledgement.
use expedit.Prelude.{
  ℕ, ◌+◌, ◌≡◌, ap, true, false, Option, none, some, arith, if◌then◌else◌, Bool-cases, inl, inr, leb,
}
use expedit.Go.Value.{ℤ, pos, negsuc, pos_part, is_positive}
use expedit.Go.Context.{without_cancel, elem}
use expedit.Message.{set_context}
use expedit.Handler.{Run, Ret, Handler, err_of, put_context, timed, take_scope, deferred, cancel}
use expedit.Subscriber.Dispatcher.{Delivery, Dispatcher, receive, handle, settle, nack_on_panic}

-- The state in which Handle calls the handler.
abbrev pub given : {W : Type 0} → Dispatcher W → Delivery W → Run W → Run W
given d delivery s =
    let ack_ctx = without_cancel delivery.message.ctx in
    if is_positive d.opts.processing_timeout
    then put_context (timed ack_ctx (pos_part d.opts.processing_timeout) s)
        (take_scope (receive delivery s))
    else put_context ack_ctx (receive delivery s)

-- The deadline that a processing timeout gives, if it is one.
abbrev pub deadline_after : ℕ → ℤ → Option ℕ
deadline_after now timeout = if is_positive timeout then some (now + pos_part timeout) else none

not_expired :
    (now : ℕ) (timeout : ℤ) → is_positive timeout ≡ true → leb (now + pos_part timeout) now ≡ false
not_expired now (pos n) h = ground arith
not_expired now (negsuc n) h = cc

-- What holds of a state in which Handle calls the handler.
pub record IsFit {W : Type 0} (d : Dispatcher W) (delivery : Delivery W) (s t : Run W)
    : Type 0 where
  pub live : err_of t t.message.ctx ≡ none
  pub values : t.message.ctx.value ≡ delivery.message.ctx.value
  pub deadline : t.message.ctx.deadline ≡ deadline_after s.now d.opts.processing_timeout
  pub same_id : t.message.id ≡ delivery.message.id
  pub same_metadata : t.message.metadata ≡ delivery.message.metadata
  pub same_payload : t.message.payload ≡ delivery.message.payload
  pub same_world : t.world ≡ s.world

given-IsFit :
    {W : Type 0} (d : Dispatcher W) (delivery : Delivery W) (s : Run W)
    → elem s.next_scope s.cancelled ≡ false
    → IsFit d delivery s (given d delivery s)
unfolding set_context
given-IsFit d delivery s h = elim (Bool-cases (is_positive d.opts.processing_timeout)) [
  | inl p ↦ record {
    live = rw (p, h, not_expired s.now d.opts.processing_timeout p);
    values = rw p;
    deadline = rw p;
    same_id = rw p;
    same_metadata = rw p;
    same_payload = rw p;
    same_world = rw p;
  }
  | inr p ↦ record {
    live = rw p;
    values = rw p;
    deadline = rw p;
    same_id = rw p;
    same_metadata = rw p;
    same_payload = rw p;
    same_world = rw p;
  }
]

-- Handle uses its handler only on states with the delivery's message, with a context that keeps the
-- values of the delivery's, has not ended (even if the delivery's has), and has the processing
-- timeout from now as its deadline if that is positive, and no deadline otherwise: two handlers that
-- agree on all such states cannot be told apart. The scope that Handle takes is not cancelled before.
pub handle_context :
    {W : Type 0} (d : Dispatcher W) (f g : Handler W) (delivery : Delivery W) (s : Run W)
    → elem s.next_scope s.cancelled ≡ false
    → ((t : Run W) → IsFit d delivery s t → f t ≡ g t)
    → handle (record d { handler = f }) delivery s ≡ handle (record d { handler = g }) delivery s
unfolding handle
handle_context {W} d f g delivery s h agree =
    let same = agree (given d delivery s) (given-IsFit d delivery s h) in
    elim (Bool-cases (is_positive d.opts.processing_timeout)) [
      | inl p ↦ rw p (ap (λ r. deferred (cancel s.next_scope) (rest r)) (rw p at same))
      | inr p ↦ rw p (ap rest (rw p at same))
    ]
  where
    rest : Ret W (Unit {0}) → Ret W (Unit {0})
    rest r =
        nack_on_panic d (without_cancel delivery.message.ctx) delivery
          (settle d (without_cancel delivery.message.ctx) delivery r)
