-- ===== src/Subscriber/Channel/Refinement.antt =====
-- A ChannelSubscriber keeps the promise of a subscriber.
use expedit.Prelude.{ℕ, ◌+◌, ◌≡◌, refl, Bool, true, false, Option, List, [], ◌∷◌, arith}
use expedit.Subscriber.Contract.{
  Work, IsSame, Serves, idle, begin, acknowledge, give_back, return, Run,
}
use expedit.Subscriber.Contract as Contract
use expedit.Subscriber.Channel.{
  Loop, at, polling, dispatching, choosing, nacking, waiting, returned, System, Step, cancel,
  take_retry, take_input, skip_nil, input_over, stop, waited, drain_waited, drain_stop, drain_retry,
  drain_over, enter, refuse, take_slot, give_up, nacked, handled, handler_failed, sent, init, Reach,
  here, next, slots_taken,
}
use expedit.Subscriber.Channel.Conservation.{
  count, count_input, held, count-append, count-middle, length-middle,
}
use expedit.Subscriber.Channel.Drained.{Place, Place-at, Inv, Reach-Inv, init-Inv}

abbrev pub is_returned : Loop → Bool
is_returned returned = true
is_returned l = false

abbrev pub view : System → Work
view s = record {
  queued = λ x. count_input x s.input + held x s.loop + count x s.retry;
  in_flight = λ x. count x s.running + count x s.sending;
  acked = λ x. count x s.acked;
  taken = slots_taken s;
  over = is_returned s.loop;
}

-- Some delivery is in flight, so Receive has not returned.
busy : (l : Loop) (s : System) → Place l s → ¬ (slots_taken s ≡ 0) → is_returned l ≡ false
busy (at p) s h b = refl
busy (dispatching p m) s h b = refl
busy (choosing p m) s h b = refl
busy (nacking p m) s h b = refl
busy polling s h b = refl
busy waiting s h b = refl
busy returned s h b = absurd (b h.0)

module _ {slots : ℕ} where
  Step-Serves : {s t : System} → Step slots s t → Inv slots s → Serves slots (view s) (view t)
  Step-Serves cancel v = idle (λ x. refl) (λ x. refl) (λ x. refl) refl refl
  Step-Serves (take_retry m rest l e) v =
      idle (λ x. rw (l, e) (omega arith)) (λ x. refl) (λ x. refl) refl (rw l refl)
  Step-Serves (take_input m rest l e) v =
      idle (λ x. rw (l, e) (omega arith)) (λ x. refl) (λ x. refl) refl (rw l refl)
  Step-Serves (skip_nil rest l e) v = idle (λ x. rw (l, e) refl) (λ x. refl) (λ x. refl) refl refl
  Step-Serves (input_over l e c) v = idle (λ x. rw l refl) (λ x. refl) (λ x. refl) refl (rw l refl)
  Step-Serves (stop l d) v = idle (λ x. rw l refl) (λ x. refl) (λ x. refl) refl (rw l refl)
  Step-Serves (waited l e) v = return e (λ x. rw l refl) (λ x. refl) (λ x. refl) e refl
  Step-Serves (drain_waited l e) v = idle (λ x. rw l refl) (λ x. refl) (λ x. refl) refl (rw l refl)
  Step-Serves {s} (drain_stop l d) v =
      let none_left = (Place-at s l v.place).1 in
      return none_left (λ x. rw l refl) (λ x. refl) (λ x. refl) none_left refl
  Step-Serves (drain_retry m rest l d e) v =
      idle (λ x. rw (l, e) (omega arith)) (λ x. refl) (λ x. refl) refl (rw l refl)
  Step-Serves {s} (drain_over l d e) v =
      let none_left = (Place-at s l v.place).1 in
      return none_left (λ x. rw l refl) (λ x. refl) (λ x. refl) none_left refl
  Step-Serves (enter p m l d) v = idle (λ x. rw l refl) (λ x. refl) (λ x. refl) refl (rw l refl)
  Step-Serves (refuse p m l d) v = idle (λ x. rw l refl) (λ x. refl) (λ x. refl) refl (rw l refl)
  Step-Serves (take_slot p m l h) v =
      begin m h (rw l refl) (λ x. rw l (omega arith)) (λ x. omega arith) (λ x. refl) (omega arith)
        refl
  Step-Serves (give_up p m l d) v = idle (λ x. rw l refl) (λ x. refl) (λ x. refl) refl (rw l refl)
  Step-Serves {s} (nacked p m l h) v =
      idle (λ x. rw l (omega (arith, count-append x s.retry (m ∷ [])))) (λ x. refl) (λ x. refl) refl
        (rw l refl)
  Step-Serves {s} (handled before after m e) v =
      let live = busy s.loop s v.place (omega (arith, length-middle before after m e)) in
      acknowledge m live (λ x. refl) (λ x. omega (arith, count-middle x before after m e))
        (λ x. refl) (omega (arith, length-middle before after m e)) live
  Step-Serves (handler_failed before after m e) v =
      idle (λ x. refl) (λ x. omega (arith, count-middle x before after m e)) (λ x. refl)
        (omega (arith, length-middle before after m e)) refl
  Step-Serves {s} (sent before after m e h) v =
      let live = busy s.loop s v.place (omega (arith, length-middle before after m e)) in
      give_back m live (λ x. omega (arith, count-append x s.retry (m ∷ [])))
        (λ x. omega (arith, count-middle x before after m e)) (λ x. refl)
        (omega (arith, length-middle before after m e)) live

  -- Each run of a ChannelSubscriber, however its loop, its goroutines and the outside interleave, is
  -- a run of a subscriber's contract, from a pool of the messages that are sent: a message leaves
  -- the pool for a handler while fewer than the slots are in flight, one in flight is acked or goes
  -- back to the pool, once each, and Receive returns when none is in flight and then begins no other.
  pub channel_refines :
      {input : List (Option ℕ)} {closes : Bool} {s : System}
      → Reach slots (init input closes) s
      → Run slots (view (init input closes)) (view s)
  channel_refines here = Contract.here
  channel_refines {input} {closes} (next r st) =
      Contract.next (channel_refines r) (Step-Serves st (Reach-Inv r (init-Inv input closes)))
