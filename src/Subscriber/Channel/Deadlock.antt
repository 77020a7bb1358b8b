-- ===== src/Subscriber/Channel/Deadlock.antt =====
-- When more messages are nacked than the retry channel holds, a ChannelSubscriber blocks for ever.
use expedit.Prelude.{
  ℕ, suc, ◌+◌, ◌≤◌, ◌<◌, ◌≡◌, refl, ◌≢◌, Bool, false, Option, some, List, [], ◌∷◌, ◌++◌, arith,
  length, length-append, ap, subst, map, append_assoc, append-nil,
}
use expedit.Subscriber.Channel.{
  receiving, Loop, choosing, nacking, returned, System, Step, cancel, take_retry, take_input,
  skip_nil, input_over, stop, waited, drain_waited, drain_stop, drain_retry, drain_over, enter,
  refuse, take_slot, give_up, nacked, handled, handler_failed, sent, init, Reach, here, next,
}
use expedit.Subscriber.Channel.Conservation.{length-middle}

-- The loop is in Dispatch, and must have a slot or room in the retry channel to leave it.
abbrev pub InDispatch : Loop → Type 0
InDispatch (choosing p m) = Unit
InDispatch (nacking p m) = Unit
InDispatch _ = ⊥

-- Every slot is held by a goroutine that waits for room in the retry channel, which is full.
pub record IsBlocked (slots : ℕ) (s : System) : Type 0 where
  pub in_dispatch : InDispatch s.loop
  pub full : length s.retry ≡ suc slots
  pub idle : s.running ≡ []
  pub busy : length s.sending ≡ slots

InDispatch-at : {l k : Loop} → l ≡ k → InDispatch l → InDispatch k
InDispatch-at e h = subst InDispatch e h

not-middle : (before after : List ℕ) (m : ℕ) {ms : List ℕ} → ms ≡ [] → ms ≡ before ++ m ∷ after → ⊥
not-middle before after m e f = omega (arith, length-middle before after m f, ap length e)

-- The loop at its select, with no handler running.
abbrev quiet : List (Option ℕ) → Bool → List ℕ → List ℕ → System
quiet input closes retry sending = record (init input closes) { retry = retry; sending = sending }

module _ {slots : ℕ} where
  Step-IsBlocked : {s t : System} → Step slots s t → IsBlocked slots s → IsBlocked slots t
  Step-IsBlocked cancel b = record {
    in_dispatch = b.in_dispatch;
    full = b.full;
    idle = b.idle;
    busy = b.busy;
  }
  Step-IsBlocked (give_up p m l d) b = record {
    in_dispatch = tt;
    full = b.full;
    idle = b.idle;
    busy = b.busy;
  }
  Step-IsBlocked (take_slot p m l h) b = absurd (omega (arith, b.busy))
  Step-IsBlocked (nacked p m l h) b = absurd (omega (arith, b.full))
  Step-IsBlocked (handled before after m e) b = absurd (not-middle before after m b.idle e)
  Step-IsBlocked (handler_failed before after m e) b = absurd (not-middle before after m b.idle e)
  Step-IsBlocked (sent before after m e h) b = absurd (omega (arith, b.full))
  Step-IsBlocked (take_retry m rest l e) b = absurd (InDispatch-at l b.in_dispatch)
  Step-IsBlocked (take_input m rest l e) b = absurd (InDispatch-at l b.in_dispatch)
  Step-IsBlocked (skip_nil rest l e) b = absurd (InDispatch-at l b.in_dispatch)
  Step-IsBlocked (input_over l e c) b = absurd (InDispatch-at l b.in_dispatch)
  Step-IsBlocked (stop l d) b = absurd (InDispatch-at l b.in_dispatch)
  Step-IsBlocked (waited l e) b = absurd (InDispatch-at l b.in_dispatch)
  Step-IsBlocked (drain_waited l e) b = absurd (InDispatch-at l b.in_dispatch)
  Step-IsBlocked (drain_stop l d) b = absurd (InDispatch-at l b.in_dispatch)
  Step-IsBlocked (drain_retry m rest l d e) b = absurd (InDispatch-at l b.in_dispatch)
  Step-IsBlocked (drain_over l d e) b = absurd (InDispatch-at l b.in_dispatch)
  Step-IsBlocked (enter p m l d) b = absurd (InDispatch-at l b.in_dispatch)
  Step-IsBlocked (refuse p m l d) b = absurd (InDispatch-at l b.in_dispatch)

  Reach-IsBlocked : {s t : System} → Reach slots s t → IsBlocked slots s → IsBlocked slots t
  Reach-IsBlocked here b = b
  Reach-IsBlocked (next r st) b = Step-IsBlocked st (Reach-IsBlocked r b)

  Reach-trans : {s t u : System} → Reach slots s t → Reach slots t u → Reach slots s u
  Reach-trans r here = r
  Reach-trans r (next q st) = next (Reach-trans r q) st

  -- The next message is dispatched and its handler fails.
  fail_one :
      (m : ℕ) (input : List (Option ℕ)) (closes : Bool) (retry sending : List ℕ)
      → length sending < slots
      → Reach slots
          (quiet (some m ∷ input) closes retry sending)
          (quiet input closes retry (m ∷ sending))
  fail_one m input closes retry sending h =
      next
        (next (next (next here (take_input m input refl refl)) (enter receiving m refl refl))
          (take_slot receiving m refl (omega arith)))
        (handler_failed [] [] m refl)

  -- Failed messages go to the retry channel while there is room.
  fail_to_retry :
      (ms : List ℕ) (input : List (Option ℕ)) (closes : Bool) (retry : List ℕ)
      → 0 < slots
      → length retry + length ms ≤ suc slots
      → Reach slots
          (quiet (map some ms ++ input) closes retry [])
          (quiet input closes (retry ++ ms) [])
  fail_to_retry [] input closes retry h b = rw (append-nil retry) here
  fail_to_retry (m ∷ ms) input closes retry h b =
      let room : length (retry ++ m ∷ []) + length ms ≤ suc slots =
        omega (arith, length-append retry (m ∷ [])) in
      let rest = fail_to_retry ms input closes (retry ++ m ∷ []) h room in
      Reach-trans
        (next (fail_one m (map some ms ++ input) closes retry [] h)
          (sent [] [] m refl (omega arith)))
        (rw (append_assoc retry (m ∷ []) ms) at rest)

  -- Then they keep their slots.
  fail_to_send :
      (ms : List ℕ) (input : List (Option ℕ)) (closes : Bool) (retry sending : List ℕ)
      → length sending + length ms ≤ slots
      → (left : List ℕ) × Reach slots
          (quiet (map some ms ++ input) closes retry sending)
          (quiet input closes retry left)
        × (length left ≡ length sending + length ms)
  fail_to_send [] input closes retry sending b = (sending, here, omega arith)
  fail_to_send (m ∷ ms) input closes retry sending b =
      let (left, rest, n) = fail_to_send ms input closes retry (m ∷ sending) (omega arith) in
      (
        left,
        Reach-trans (fail_one m (map some ms ++ input) closes retry sending (omega arith)) rest,
        omega (arith, n),
      )

  IsBlocked-ne-returned : {s : System} → IsBlocked slots s → s.loop ≢ returned
  IsBlocked-ne-returned b l = InDispatch-at l b.in_dispatch

-- A channel subscriber with any positive number of slots, to which twice as many messages and two
-- more are sent, can reach a state in which ctx is not done and from which Receive never returns,
-- whatever happens next: not when ctx is done later either. It is enough that the handlers of
-- those messages fail and that the loop takes the new messages before the nacked ones.
pub receive_deadlocks :
    (slots : ℕ) (first second : List ℕ) (m : ℕ) (rest : List (Option ℕ)) (closes : Bool)
    → 0 < slots
    → length first ≡ suc slots
    → length second ≡ slots
    → (s : System) × Reach slots
        (init (map some first ++ (map some second ++ some m ∷ rest)) closes)
        s
      × (s.ctx_done ≡ false)
      × ((t : System) → Reach slots s t → t.loop ≢ returned)
receive_deadlocks slots first second m rest closes h f g =
    let fits : 0 + length first ≤ suc slots = omega arith in
    let (left, filled, n) = fail_to_send second (some m ∷ rest) closes first [] (omega arith) in
    let blocked : IsBlocked slots
        (record (quiet rest closes first left) { loop = choosing receiving m }) =
      record { in_dispatch = tt; full = f; idle = refl; busy = omega (arith, n) } in
    (
      record (quiet rest closes first left) { loop = choosing receiving m },
      next
          (next
            (Reach-trans (fail_to_retry first (map some second ++ some m ∷ rest) closes [] h fits)
              filled)
            (take_input m rest refl refl))
          (enter receiving m refl refl),
      refl,
      λ t r. IsBlocked-ne-returned (Reach-IsBlocked r blocked),
    )
