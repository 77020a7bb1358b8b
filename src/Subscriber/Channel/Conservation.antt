-- ===== src/Subscriber/Channel/Conservation.antt =====
-- No message of a ChannelSubscriber is lost or handled twice at once, and the bounds of its channels.
use expedit.Prelude.{
  ℕ, suc, ◌+◌, ◌≡◌, refl, Option, none, some, List, [], ◌∷◌, ◌++◌, arith, ◌=?◌, if◌then◌else◌,
  length, length-append, ◌∙◌,
}
use expedit.Subscriber.Channel.{
  Loop, dispatching, choosing, nacking, System, Step, cancel, take_retry, take_input, skip_nil,
  input_over, stop, waited, drain_waited, drain_stop, drain_retry, drain_over, enter, refuse,
  take_slot, give_up, nacked, handled, handler_failed, sent, Reach, here, next,
}

abbrev pub one : ℕ → ℕ → ℕ
one x m = if x =? m then 1 else 0

-- How often a message occurs.
abbrev pub count : ℕ → List ℕ → ℕ
count x [] = 0
count x (m ∷ ms) = one x m + count x ms

abbrev pub count_input : ℕ → List (Option ℕ) → ℕ
count_input x [] = 0
count_input x (none ∷ ms) = count_input x ms
count_input x (some m ∷ ms) = one x m + count_input x ms

-- The message that the loop holds.
abbrev pub held : ℕ → Loop → ℕ
held x (dispatching p m) = one x m
held x (choosing p m) = one x m
held x (nacking p m) = one x m
held x _ = 0

-- How often a message is anywhere: waiting, in the loop, in flight or acked.
abbrev pub copies : ℕ → System → ℕ
copies x s =
    count_input x s.input
    + held x s.loop
    + count x s.retry
    + count x s.running
    + count x s.sending
    + count x s.acked

pub count-append : (x : ℕ) (ms ns : List ℕ) → count x (ms ++ ns) ≡ count x ms + count x ns
count-append x [] ns = omega arith
count-append x (m ∷ ms) ns = omega (arith, count-append x ms ns)

pub count-middle :
    (x : ℕ) (before after : List ℕ) (m : ℕ) {ms : List ℕ}
    → ms ≡ before ++ m ∷ after
    → count x ms ≡ one x m + count x (before ++ after)
count-middle x before after m e =
    rw e (omega (arith, count-append x before (m ∷ after), count-append x before after))

pub length-middle :
    (before after : List ℕ) (m : ℕ) {ms : List ℕ}
    → ms ≡ before ++ m ∷ after
    → length ms ≡ suc (length (before ++ after))
length-middle before after m e =
    rw e (omega (arith, length-append before (m ∷ after), length-append before after))

module _ {slots : ℕ} where
  Step-copies : (x : ℕ) {s t : System} → Step slots s t → copies x t ≡ copies x s
  Step-copies x cancel = refl
  Step-copies x (take_retry m rest l e) = rw (l, e) (omega arith)
  Step-copies x (take_input m rest l e) = rw (l, e) (omega arith)
  Step-copies x (skip_nil rest l e) = rw (l, e) (omega arith)
  Step-copies x (input_over l e c) = rw l refl
  Step-copies x (stop l d) = rw l refl
  Step-copies x (waited l e) = rw l refl
  Step-copies x (drain_waited l e) = rw l refl
  Step-copies x (drain_stop l d) = rw l refl
  Step-copies x (drain_retry m rest l d e) = rw (l, e) (omega arith)
  Step-copies x (drain_over l d e) = rw l refl
  Step-copies x (enter p m l d) = rw l refl
  Step-copies x (refuse p m l d) = rw l refl
  Step-copies x (take_slot p m l h) = rw l (omega arith)
  Step-copies x (give_up p m l d) = rw l refl
  Step-copies x {s} (nacked p m l h) = rw l (omega (arith, count-append x s.retry (m ∷ [])))
  Step-copies x (handled before after m e) = omega (arith, count-middle x before after m e)
  Step-copies x (handler_failed before after m e) = omega (arith, count-middle x before after m e)
  Step-copies x {s} (sent before after m e h) =
      omega (arith, count-middle x before after m e, count-append x s.retry (m ∷ []))

  -- However the loop and the goroutines interleave, each message sent on the input channel is, as
  -- often as it was sent, in one place: waiting, in the loop, in flight or acked.
  pub Reach-copies : (x : ℕ) {s t : System} → Reach slots s t → copies x t ≡ copies x s
  Reach-copies x here = refl
  Reach-copies x (next r st) = Step-copies x st ∙ Reach-copies x r
