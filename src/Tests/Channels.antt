-- ===== src/Tests/Channels.antt =====
-- Channel subscribers at concrete inputs.
use expedit.Prelude.{
  ℕ, ◌≤◌, ◌≡◌, refl, ◌≢◌, ◌⊎◌, true, false, none, some, [], ◌∷◌, ◌++◌, map, length, arith,
}
use expedit.Subscriber.Channel.{
  receiving, returned, System, Reach, here, next, init, take_input, skip_nil, enter, take_slot,
  handled, input_over, drain_waited, drain_over, slots_taken,
}
use expedit.Subscriber.Channel.Conservation.{count, count_input, copies}
use expedit.Subscriber.Channel.Drained.{receive_bounds, returned_all_acked}
use expedit.Subscriber.Contract.{Run}
use expedit.Subscriber.Channel.Refinement.{view, channel_refines}
use expedit.Subscriber.Channel.Deadlock.{receive_deadlocks}

-- A message, a nil message, and the close of the channel.
abbrev finished : System
finished = record (init [] true) { loop = returned; acked = 4 ∷ [] }

finishes : Reach 1 (init (some 4 ∷ none ∷ []) true) finished
finishes =
    next
      (next
        (next
          (next
            (next
              (next
                (next (next here (take_input 4 (none ∷ []) refl refl))
                  (enter receiving 4 refl refl))
                (take_slot receiving 4 refl (omega arith)))
              (handled [] [] 4 refl))
            (skip_nil [] refl refl))
          (input_over refl refl refl))
        (drain_waited refl refl))
      (drain_over refl refl refl)

returned_all_acked_example :
    (slots_taken finished ≡ 0)
    × ((finished.ctx_done ≡ true)
        ⊎ ((x : ℕ) → count x finished.acked ≡ count_input x (some 4 ∷ none ∷ [])))
returned_all_acked_example =
    returned_all_acked {input = some 4 ∷ none ∷ []} {closes = true} finishes refl

receive_bounds_example :
    (slots_taken finished ≤ 1)
    × (length finished.retry ≤ 2)
    × ((x : ℕ) → copies x finished ≡ count_input x (some 4 ∷ none ∷ []))
receive_bounds_example = receive_bounds {input = some 4 ∷ none ∷ []} {closes = true} finishes

-- One slot and four messages are enough.
receive_deadlocks_example :
    (s : System) × Reach 1
      (init (map some (1 ∷ 2 ∷ []) ++ (map some (3 ∷ []) ++ some 4 ∷ [])) true)
      s
    × (s.ctx_done ≡ false)
    × ((t : System) → Reach 1 s t → t.loop ≢ returned)
receive_deadlocks_example =
    receive_deadlocks 1 (1 ∷ 2 ∷ []) (3 ∷ []) 4 [] true (omega arith) refl refl

channel_refines_example : Run 1 (view (init (some 4 ∷ none ∷ []) true)) (view finished)
channel_refines_example =
    channel_refines {input = some 4 ∷ none ∷ []} {closes = true} {s = finished} finishes
