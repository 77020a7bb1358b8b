-- ===== src/Subscriber/Dispatcher/Slots/Draining.antt =====
-- A dispatcher whose handlers and acknowledgements return never gets stuck.
use expedit.Prelude.{
  ℕ, ◌<◌, ◌≡◌, refl, true, List, [], ◌∷◌, ◌++◌, arith, ap, ◌∙◌, sym, Bool-cases, inl, inr,
  append_assoc,
}
use expedit.Subscriber.Dispatcher.Slots.{
  Stage, entered, choosing, refusing, slotted, handling, releasing, counting, settled, System, Turn,
  enter, refuse, take_slot, nacked, add, handled, release, done, turn, start, Reach, here, next,
}
use expedit.Handler.{Handler}
use expedit.Go.Value.{ℤ, pos, negsuc, is_positive, pos_part}
use expedit.Subscriber.Dispatcher.{DispatchOptions, new_dispatcher}
use expedit.Subscriber.Dispatcher.Slots.Counting.{
  slot, member, total, total-middle, Reach-Inv, start-Inv,
}

-- The same deliveries, all settled.
abbrev pub all_settled : List Stage → List Stage
all_settled [] = []
all_settled (x ∷ xs) = settled ∷ all_settled xs

-- What has a slot, or is behind it or beside it, is settled.
abbrev released : Stage → Stage
released entered = entered
released choosing = choosing
released x = settled

abbrev all_released : List Stage → List Stage
all_released [] = []
all_released (x ∷ xs) = released x ∷ all_released xs

-- The delivery at hand belongs to those in front.
shift : (before after : List Stage) (x : Stage) → before ++ x ∷ after ≡ (before ++ x ∷ []) ++ after
shift before after x = sym (append_assoc before (x ∷ []) after)

none_held : (xs : List Stage) → total slot (all_released xs) ≡ 0
none_held [] = refl
none_held (x ∷ xs) = omega (arith, none_held xs, one x)
  where
    one : (x : Stage) → slot (released x) ≡ 0
    one entered = refl
    one choosing = refl
    one refusing = refl
    one slotted = refl
    one handling = refl
    one releasing = refl
    one counting = refl
    one settled = refl

all_settled-released : (xs : List Stage) → all_settled (all_released xs) ≡ all_settled xs
all_settled-released [] = refl
all_settled-released (x ∷ xs) = ap (λ l. settled ∷ l) (all_settled-released xs)

settled_counts :
    (xs : List Stage) → (total slot (all_settled xs) ≡ 0) × (total member (all_settled xs) ≡ 0)
settled_counts [] = (refl, refl)
settled_counts (x ∷ xs) =
    let (free, idle) = settled_counts xs in (omega (arith, free), omega (arith, idle))

-- NewDispatcher makes at least one slot.
pos_part-positive : (n : ℤ) → is_positive n ≡ true → 0 < pos_part n
pos_part-positive (pos n) h = ground arith
pos_part-positive (negsuc n) h = cc

some_slot :
    {W : Type 0} (h : Handler W) (opts : DispatchOptions W) → 0 < (new_dispatcher h opts).slots
unfolding new_dispatcher
some_slot h opts = elim (Bool-cases (is_positive opts.max_in_flight)) [
  | inl p ↦ rw p (pos_part-positive opts.max_in_flight p)
  | inr p ↦ rw p (omega arith)
]

module _ (Returns : System → Stage → Type 0) (handles : (s : System) → Returns s handling)
    (nacks : (s : System) → Returns s refusing) (slots : ℕ) where
  Reach-trans :
      {s t u : System} → Reach Returns slots s t → Reach Returns slots t u → Reach Returns slots s u
  Reach-trans r here = r
  Reach-trans r (next q st) = next (Reach-trans r q) st

  -- A state with these stages is reached.
  abbrev Gets : System → List Stage → Type 0
  Gets s stages = (t : System) × Reach Returns slots s t × (t.stages ≡ stages)

  behind :
      (stages : List Stage) {s t : System} → Reach Returns slots s t → Gets t stages → Gets s stages
  behind stages r (t, q, e) = (t, Reach-trans r q, e)

  module _ (before after : List Stage) where
    abbrev gone : List Stage
    gone = before ++ settled ∷ after

    -- One turn of the delivery between the others.
    turned :
        {s : System} {x y : Stage} {t w : ℕ}
        → s.stages ≡ before ++ x ∷ after
        → Turn (Returns s) slots s.ctx_done s.taken s.wg x y t w
        → Reach Returns slots s (record s { stages = before ++ y ∷ after; taken = t; wg = w })
    turned {x = x} {y = y} {t = t} {w = w} e m = next here (turn before after x y t w e m)

    from_counting : (s : System) → s.stages ≡ before ++ counting ∷ after → Gets s gone
    from_counting s e = (_, turned e done, refl)

    from_releasing : (s : System) → s.stages ≡ before ++ releasing ∷ after → Gets s gone
    from_releasing s e = behind gone (turned e release) (from_counting _ refl)

    from_handling : (s : System) → s.stages ≡ before ++ handling ∷ after → Gets s gone
    from_handling s e = behind gone (turned e (handled (handles s))) (from_releasing _ refl)

    from_slotted : (s : System) → s.stages ≡ before ++ slotted ∷ after → Gets s gone
    from_slotted s e = behind gone (turned e add) (from_handling _ refl)

    release_one :
        (x : Stage) (s : System)
        → s.stages ≡ before ++ x ∷ after
        → Gets s (before ++ released x ∷ after)
    release_one entered s e = (s, here, e)
    release_one choosing s e = (s, here, e)
    release_one settled s e = (s, here, e)
    release_one refusing s e = (_, turned e (nacked (nacks s)), refl)
    release_one counting s e = from_counting s e
    release_one releasing s e = from_releasing s e
    release_one handling s e = from_handling s e
    release_one slotted s e = from_slotted s e

    from_choosing :
        (s : System) → s.stages ≡ before ++ choosing ∷ after → s.taken < slots → Gets s gone
    from_choosing s e free = behind gone (turned e (take_slot free)) (from_slotted _ refl)

    from_entered :
        (s : System) → s.stages ≡ before ++ entered ∷ after → s.taken < slots → Gets s gone
    from_entered s e free = elim (Bool-cases s.ctx_done) [
      | inl d ↦ behind gone (turned e (refuse d)) (_, turned refl (nacked (nacks _)), refl)
      | inr d ↦ behind gone (turned e (enter d)) (from_choosing _ refl free)
    ]

    settle_one :
        (x : Stage) (s : System) → s.stages ≡ before ++ x ∷ after → s.taken < slots → Gets s gone
    settle_one entered s e free = from_entered s e free
    settle_one choosing s e free = from_choosing s e free
    settle_one refusing s e free = release_one refusing s e
    settle_one slotted s e free = release_one slotted s e
    settle_one handling s e free = release_one handling s e
    settle_one releasing s e free = release_one releasing s e
    settle_one counting s e free = release_one counting s e
    settle_one settled s e free = release_one settled s e

  release_each :
      (before after : List Stage) (s : System)
      → s.stages ≡ before ++ after
      → Gets s (before ++ all_released after)
  release_each before [] s e = (s, here, e)
  release_each before (x ∷ after) s e =
      let (t, r, e') = release_one before after x s e in
      let (u, q, e'') =
        release_each (before ++ released x ∷ []) after t (e' ∙ shift before after (released x)) in
      (u, Reach-trans r q, e'' ∙ sym (shift before (all_released after) (released x)))

  settle_each :
      (before after : List Stage) (s : System)
      → 0 < slots
      → Reach Returns slots start s
      → total slot (before ++ after) ≡ 0
      → s.stages ≡ before ++ after
      → Gets s (before ++ all_settled after)
  settle_each before [] s some_slot r free e = (s, here, e)
  settle_each before (x ∷ after) s some_slot r free e =
      let v = Reach-Inv r start-Inv in
      let (t, q, e') =
        settle_one before after x s e
          (omega (arith, v.slots_held, ap (total slot) e, free, some_slot)) in
      let still : total slot ((before ++ settled ∷ []) ++ after) ≡ 0 =
        ap (total slot) (sym (shift before after settled))
        ∙ omega (
          arith,
          free,
          total-middle slot before after x,
          total-middle slot before after settled,
        ) in
      let (u, p, e'') =
        settle_each (before ++ settled ∷ []) after t some_slot (Reach-trans r q) still
          (e' ∙ shift before after settled) in
      (u, Reach-trans q p, e'' ∙ sym (shift before (all_settled after) settled))

-- If every Handle, and every nack of Dispatch itself, can return in every state, then a dispatcher that
-- NewDispatcher has made never gets stuck: from every state that calls of Dispatch, their goroutines and
-- the end of ctx can reach, a state is reachable in which each of these deliveries is settled, all slots
-- are free again, and the WaitGroup is at zero, so that Wait returns.
pub dispatcher_drains :
    {W : Type 0} {Returns : System → Stage → Type 0} (h : Handler W) (opts : DispatchOptions W)
    {s : System}
    → ((t : System) → Returns t handling)
    → ((t : System) → Returns t refusing)
    → Reach Returns (new_dispatcher h opts).slots start s
    → (t : System) × Reach Returns (new_dispatcher h opts).slots s t
      × (t.stages ≡ all_settled s.stages)
      × (t.taken ≡ 0)
      × (t.wg ≡ 0)
dispatcher_drains {Returns = Returns} h opts {s} handles nacks r =
    let slots = (new_dispatcher h opts).slots in
    let (t, q, e) = release_each Returns handles nacks slots [] s.stages s refl in
    let before = Reach-trans Returns handles nacks slots r q in
    let (u, p, e') =
      settle_each Returns handles nacks slots [] (all_released s.stages) t (some_slot h opts) before
        (none_held s.stages) e in
    let v = Reach-Inv (Reach-trans Returns handles nacks slots before p) start-Inv in
    let same = e' ∙ all_settled-released s.stages in
    let (free, idle) = settled_counts s.stages in
    (
      u,
      Reach-trans Returns handles nacks slots q p,
      same,
      v.slots_held ∙ (ap (total slot) same ∙ free),
      v.members ∙ (ap (total member) same ∙ idle),
    )
