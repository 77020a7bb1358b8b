-- ===== src/Subscriber/Dispatcher/Slots/Counting.antt =====
-- What the slots and the WaitGroup of a dispatcher count.
use expedit.Prelude.{ℕ, ◌+◌, ◌≤◌, ◌≡◌, refl, Bool, List, [], ◌∷◌, ◌++◌, arith, ap, ◌∙◌}
use expedit.Subscriber.Dispatcher.Slots.{
  Stage, entered, choosing, refusing, slotted, handling, releasing, counting, settled, System, Turn,
  enter, refuse, take_slot, give_up, nacked, add, handled, release, done, Step, cancel, dispatch,
  turn, start, Reach, here, next,
}

-- Whether a delivery holds a slot.
abbrev pub slot : Stage → ℕ
slot slotted = 1
slot handling = 1
slot releasing = 1
slot x = 0

-- Whether the WaitGroup counts it.
abbrev pub member : Stage → ℕ
member handling = 1
member releasing = 1
member counting = 1
member x = 0

-- Whether its handler runs.
abbrev pub busy : Stage → ℕ
busy handling = 1
busy x = 0

abbrev pub total : (Stage → ℕ) → List Stage → ℕ
total f [] = 0
total f (x ∷ xs) = f x + total f xs

pub total-append :
    (f : Stage → ℕ) (xs ys : List Stage) → total f (xs ++ ys) ≡ total f xs + total f ys
total-append f [] ys = omega arith
total-append f (x ∷ xs) ys = omega (arith, total-append f xs ys)

pub total-middle :
    (f : Stage → ℕ) (before after : List Stage) (x : Stage)
    → total f (before ++ x ∷ after) ≡ f x + total f (before ++ after)
total-middle f before after x =
    omega (arith, total-append f before (x ∷ after), total-append f before after)

total-le : (xs : List Stage) → total busy xs ≤ total slot xs
total-le [] = omega arith
total-le (x ∷ xs) = omega (arith, total-le xs, one x)
  where
    one : (x : Stage) → busy x ≤ slot x
    one entered = omega arith
    one choosing = omega arith
    one refusing = omega arith
    one slotted = omega arith
    one handling = omega arith
    one releasing = omega arith
    one counting = omega arith
    one settled = omega arith

pub record Inv (slots : ℕ) (s : System) : Type 0 where
  pub slots_held : s.taken ≡ total slot s.stages
  pub members : s.wg ≡ total member s.stages
  pub in_capacity : s.taken ≤ slots

pub start-Inv : {slots : ℕ} → Inv slots start
start-Inv = record { slots_held = refl; members = refl; in_capacity = omega arith }

module _ {slots : ℕ} where
  Turn-counts :
      {returns : Stage → Type 0} {c : Bool} {taken wg t w : ℕ} {x y : Stage}
      → Turn returns slots c taken wg x y t w
      → slot x ≤ taken
      → member x ≤ wg
      → taken ≤ slots
      → (t + slot x ≡ taken + slot y) × (w + member x ≡ wg + member y) × (t ≤ slots)
  Turn-counts (enter d) a b h = (refl, refl, h)
  Turn-counts (refuse d) a b h = (refl, refl, h)
  Turn-counts (take_slot l) a b h = (omega arith, refl, omega (arith, l))
  Turn-counts (give_up d) a b h = (refl, refl, h)
  Turn-counts (nacked f) a b h = (refl, refl, h)
  Turn-counts add a b h = (refl, omega arith, h)
  Turn-counts (handled f) a b h = (refl, refl, h)
  Turn-counts release a b h = (omega (arith, a), refl, omega (arith, h))
  Turn-counts done a b h = (refl, omega (arith, b), h)

module _ {Returns : System → Stage → Type 0} {slots : ℕ} where
  Step-Inv : {s t : System} → Step Returns slots s t → Inv slots s → Inv slots t
  Step-Inv cancel v = record {
    slots_held = v.slots_held;
    members = v.members;
    in_capacity = v.in_capacity;
  }
  Step-Inv {s} dispatch v = record {
    slots_held = omega (arith, v.slots_held, total-append slot s.stages (entered ∷ []));
    members = omega (arith, v.members, total-append member s.stages (entered ∷ []));
    in_capacity = v.in_capacity;
  }
  Step-Inv {s} (turn before after x y t w e m) v =
      let held = v.slots_held ∙ (ap (total slot) e ∙ total-middle slot before after x) in
      let in_group = v.members ∙ (ap (total member) e ∙ total-middle member before after x) in
      let (by_slot, by_group, fits) =
        Turn-counts m (omega (arith, held)) (omega (arith, in_group)) v.in_capacity in
      record {
        slots_held = omega (arith, by_slot, held, total-middle slot before after y);
        members = omega (arith, by_group, in_group, total-middle member before after y);
        in_capacity = fits;
      }

  pub Reach-Inv : {s t : System} → Reach Returns slots s t → Inv slots s → Inv slots t
  Reach-Inv here v = v
  Reach-Inv (next r st) v = Step-Inv st (Reach-Inv r v)

  -- However the calls of Dispatch, their goroutines and the end of ctx interleave, and whatever Handle
  -- and the nacks of Dispatch wait for: the handlers that run are at most as many as the slots, and at most the count of the WaitGroup, so none of them
  -- runs when Wait returns.
  pub dispatcher_bounds :
      {s : System}
      → Reach Returns slots start s
      → (total busy s.stages ≤ slots) × (total busy s.stages ≤ s.wg)
  dispatcher_bounds {s} r =
      let v = Reach-Inv r start-Inv in
      (
        omega (arith, v.slots_held, v.in_capacity, total-le s.stages),
        omega (arith, v.members, busy_counted s.stages),
      )
    where
      one : (x : Stage) → busy x ≤ member x
      one entered = omega arith
      one choosing = omega arith
      one refusing = omega arith
      one slotted = omega arith
      one handling = omega arith
      one releasing = omega arith
      one counting = omega arith
      one settled = omega arith

      busy_counted : (xs : List Stage) → total busy xs ≤ total member xs
      busy_counted [] = omega arith
      busy_counted (x ∷ xs) = omega (arith, busy_counted xs, one x)
