-- ===== src/Tests/Dispatches.antt =====
-- Calls of Dispatch at a concrete run.
use expedit.Prelude.{ℕ, ◌≤◌, ◌≡◌, refl, true, none, [], ◌∷◌, arith}
use expedit.Go.Value.{pos}
use expedit.Handler.{ok}
use expedit.Subscriber.Dispatcher.{DispatchOptions, new_dispatcher}
use expedit.Subscriber.Dispatcher.Slots.{
  System, Stage, entered, choosing, slotted, handling, enter, take_slot, add, cancel, dispatch,
  turn, start, Reach, here, next,
}
use expedit.Subscriber.Dispatcher.Slots.Counting.{total, busy, dispatcher_bounds}
use expedit.Subscriber.Dispatcher.Slots.Draining.{all_settled, dispatcher_drains}

-- One delivery is in its handler, and the next waits for the only slot, when ctx is done.
abbrev full : System
full = record { stages = handling ∷ choosing ∷ []; taken = 1; wg = 1; ctx_done = true }

abbrev Always : System → Stage → Type 0
Always s x = Unit

is_full : Reach Always 1 start full
is_full =
    next
      (next
        (next
          (next
            (next (next (next here dispatch) (turn [] [] entered choosing 0 0 refl (enter refl)))
              (turn [] [] choosing slotted 1 0 refl (take_slot (omega arith))))
            (turn [] [] slotted handling 1 1 refl add))
          dispatch)
        (turn (handling ∷ []) [] entered choosing 1 1 refl (enter refl)))
      cancel

dispatcher_bounds_example : (total busy full.stages ≤ 1) × (total busy full.stages ≤ full.wg)
dispatcher_bounds_example = dispatcher_bounds {Returns = Always} {s = full} is_full

abbrev one_slot : DispatchOptions ℕ
one_slot = record {
  max_in_flight = pos 1;
  processing_timeout = pos 0;
  on_ack_error = none;
  on_nack_error = none;
}

dispatcher_drains_example :
    (t : System) × Reach Always 1 full t
    × (t.stages ≡ all_settled full.stages)
    × (t.taken ≡ 0)
    × (t.wg ≡ 0)
unfolding new_dispatcher
dispatcher_drains_example =
    dispatcher_drains {W = ℕ} {Returns = Always} (λ s. ok tt s) one_slot {s = full} (λ t. tt)
      (λ t. tt) is_full
