-- ===== src/Subscriber/Channel/Drained.antt =====
-- The bounds of a ChannelSubscriber, and what its Receive has done when it returns.
use expedit.Prelude.{
  ℕ, suc, ◌≤◌, ◌≡◌, refl, ◌⊎◌, inl, inr, Bool, true, Option, List, [], ◌∷◌, arith, length,
  length-append, ◌∙◌, ap, subst,
}
use expedit.Subscriber.Channel.{
  Phase, receiving, draining, Loop, at, polling, dispatching, choosing, nacking, waiting, returned,
  System, Step, cancel, take_retry, take_input, skip_nil, input_over, stop, waited, drain_waited,
  drain_stop, drain_retry, drain_over, enter, refuse, take_slot, give_up, nacked, handled,
  handler_failed, sent, init, Reach, here, next, slots_taken,
}
use expedit.Subscriber.Channel.Conservation.{
  count, count_input, held, copies, length-middle, Reach-copies,
}

abbrev Drains : Phase → System → Type 0
Drains receiving s = Unit
Drains draining s = s.input ≡ []

-- What the place of the loop says about the rest of the system.
abbrev pub Place : Loop → System → Type 0
Place (at p) s = Drains p s
Place (dispatching p m) s = Drains p s
Place (choosing p m) s = Drains p s
Place (nacking p m) s = Drains p s
Place polling s = (s.input ≡ []) × (slots_taken s ≡ 0)
Place waiting s = s.ctx_done ≡ true
Place returned s = (slots_taken s ≡ 0) × ((s.ctx_done ≡ true) ⊎ ((s.input ≡ []) × (s.retry ≡ [])))

pub record Inv (slots : ℕ) (s : System) : Type 0 where
  pub in_flight : slots_taken s ≤ slots
  pub retries : length s.retry ≤ suc slots
  pub place : Place s.loop s

Drains-keep : (p : Phase) (s t : System) → t.input ≡ s.input → Drains p s → Drains p t
Drains-keep receiving s t e d = tt
Drains-keep draining s t e d = e ∙ d

pub Place-at : {l : Loop} (s : System) → s.loop ≡ l → Place s.loop s → Place l s
Place-at s e h = subst (λ k. Place k s) e h

-- The goroutine of a delivery moves: the loop is then at no place where none is left.
Place-move :
    (l : Loop) (s t : System)
    → Place l s
    → t.input ≡ s.input
    → t.ctx_done ≡ s.ctx_done
    → ¬ (slots_taken s ≡ 0)
    → Place l t
Place-move (at p) s t h e d b = Drains-keep p s t e h
Place-move (dispatching p m) s t h e d b = Drains-keep p s t e h
Place-move (choosing p m) s t h e d b = Drains-keep p s t e h
Place-move (nacking p m) s t h e d b = Drains-keep p s t e h
Place-move polling s t h e d b = absurd (b h.1)
Place-move waiting s t h e d b = d ∙ h
Place-move returned s t h e d b = absurd (b h.0)

Place-cancel : (l : Loop) (s : System) → Place l s → Place l (record s { ctx_done = true })
Place-cancel (at receiving) s h = h
Place-cancel (at draining) s h = h
Place-cancel (dispatching receiving m) s h = h
Place-cancel (dispatching draining m) s h = h
Place-cancel (choosing receiving m) s h = h
Place-cancel (choosing draining m) s h = h
Place-cancel (nacking receiving m) s h = h
Place-cancel (nacking draining m) s h = h
Place-cancel polling s h = h
Place-cancel waiting s h = refl
Place-cancel returned s h = (h.0, inl refl)

count-eq-zero : (x : ℕ) (ms : List ℕ) → length ms ≡ 0 → count x ms ≡ 0
count-eq-zero x [] h = refl
count-eq-zero x (m ∷ ms) h = absurd (omega arith)

module _ {slots : ℕ} where
  Step-Inv : {s t : System} → Step slots s t → Inv slots s → Inv slots t
  Step-Inv {s} cancel v = record {
    in_flight = v.in_flight;
    retries = v.retries;
    place = Place-cancel s.loop s v.place;
  }
  Step-Inv (take_retry m rest l e) v = record {
    in_flight = v.in_flight;
    retries = ground (arith, v.retries);
    place = tt;
  }
  Step-Inv (take_input m rest l e) v = record {
    in_flight = v.in_flight;
    retries = v.retries;
    place = tt;
  }
  Step-Inv {s} (skip_nil rest l e) v = record {
    in_flight = v.in_flight;
    retries = v.retries;
    place = rw l tt;
  }
  Step-Inv (input_over l e c) v = record { in_flight = v.in_flight; retries = v.retries; place = e }
  Step-Inv (stop l d) v = record { in_flight = v.in_flight; retries = v.retries; place = d }
  Step-Inv (waited l e) v = record {
    in_flight = v.in_flight;
    retries = v.retries;
    place = (e, inl (Place-at _ l v.place));
  }
  Step-Inv (drain_waited l e) v = record {
    in_flight = v.in_flight;
    retries = v.retries;
    place = (Place-at _ l v.place, e);
  }
  Step-Inv (drain_stop l d) v = record {
    in_flight = v.in_flight;
    retries = v.retries;
    place = ((Place-at _ l v.place).1, inl d);
  }
  Step-Inv (drain_retry m rest l d e) v = record {
    in_flight = v.in_flight;
    retries = ground (arith, v.retries);
    place = (Place-at _ l v.place).0;
  }
  Step-Inv (drain_over l d e) v = record {
    in_flight = v.in_flight;
    retries = v.retries;
    place = ((Place-at _ l v.place).1, inr ((Place-at _ l v.place).0, e));
  }
  Step-Inv (enter p m l d) v = record {
    in_flight = v.in_flight;
    retries = v.retries;
    place = Drains-keep p _ _ refl (Place-at _ l v.place);
  }
  Step-Inv (refuse p m l d) v = record {
    in_flight = v.in_flight;
    retries = v.retries;
    place = Drains-keep p _ _ refl (Place-at _ l v.place);
  }
  Step-Inv (take_slot p m l h) v = record {
    in_flight = omega arith;
    retries = v.retries;
    place = Drains-keep p _ _ refl (Place-at _ l v.place);
  }
  Step-Inv (give_up p m l d) v = record {
    in_flight = v.in_flight;
    retries = v.retries;
    place = Drains-keep p _ _ refl (Place-at _ l v.place);
  }
  Step-Inv {s} (nacked p m l h) v = record {
    in_flight = v.in_flight;
    retries = omega (arith, length-append s.retry (m ∷ []));
    place = Drains-keep p _ _ refl (Place-at _ l v.place);
  }
  Step-Inv {s} (handled before after m e) v = record {
    in_flight = omega (arith, length-middle before after m e, v.in_flight);
    retries = v.retries;
    place = Place-move s.loop s _ v.place refl refl (omega (arith, length-middle before after m e));
  }
  Step-Inv {s} (handler_failed before after m e) v = record {
    in_flight = omega (arith, length-middle before after m e, v.in_flight);
    retries = v.retries;
    place = Place-move s.loop s _ v.place refl refl (omega (arith, length-middle before after m e));
  }
  Step-Inv {s} (sent before after m e h) v = record {
    in_flight = omega (arith, length-middle before after m e, v.in_flight);
    retries = omega (arith, length-append s.retry (m ∷ []));
    place = Place-move s.loop s _ v.place refl refl (omega (arith, length-middle before after m e));
  }

  pub Reach-Inv : {s t : System} → Reach slots s t → Inv slots s → Inv slots t
  Reach-Inv here v = v
  Reach-Inv (next r st) v = Step-Inv st (Reach-Inv r v)

  pub init-Inv : (input : List (Option ℕ)) (closes : Bool) → Inv slots (init input closes)
  init-Inv input closes = record { in_flight = omega arith; retries = omega arith; place = tt }

  -- In every state that a call of Receive can reach, the deliveries in flight are at most the slots,
  -- the retry channel holds at most one more than the slots, and every message that was sent is in
  -- exactly one place as often as it was sent.
  pub receive_bounds :
      {input : List (Option ℕ)} {closes : Bool} {s : System}
      → Reach slots (init input closes) s
      → (slots_taken s ≤ slots)
        × (length s.retry ≤ suc slots)
        × ((x : ℕ) → copies x s ≡ count_input x input)
  receive_bounds {input} {closes} r = (
    (Reach-Inv r (init-Inv input closes)).in_flight,
    (Reach-Inv r (init-Inv input closes)).retries,
    λ x. Reach-copies x r ∙ omega arith,
  )

  -- When Receive has returned, no goroutine of it is left; and if ctx was not done, every message
  -- that was sent has been acked, exactly as often as it was sent.
  pub returned_all_acked :
      {input : List (Option ℕ)} {closes : Bool} {s : System}
      → Reach slots (init input closes) s
      → s.loop ≡ returned
      → (slots_taken s ≡ 0)
        × ((s.ctx_done ≡ true) ⊎ ((x : ℕ) → count x s.acked ≡ count_input x input))
  returned_all_acked {input} {closes} {s} r l = (done.0, all_acked done.1)
    where
      done : (slots_taken s ≡ 0) × ((s.ctx_done ≡ true) ⊎ ((s.input ≡ []) × (s.retry ≡ [])))
      done = Place-at s l (Reach-Inv r (init-Inv input closes)).place

      all_acked :
          (s.ctx_done ≡ true) ⊎ ((s.input ≡ []) × (s.retry ≡ []))
          → (s.ctx_done ≡ true) ⊎ ((x : ℕ) → count x s.acked ≡ count_input x input)
      all_acked (inl t) = inl t
      all_acked (inr (i, e)) = inr (λ x. omega (
        arith,
        Reach-copies x r,
        ap (held x) l,
        ap (count_input x) i,
        ap (count x) e,
        count-eq-zero x s.running (omega (arith, done.0)),
        count-eq-zero x s.sending (omega (arith, done.0)),
      ))
