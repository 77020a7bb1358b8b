-- ===== src/Subscriber/Dispatcher/Slots.antt =====
-- core/subscriber/dispatcher.go: the slots, the WaitGroup and the goroutines of Dispatch, and Wait, for
-- any number of calls of Dispatch that run beside each other. How Handle settles a delivery is in the
-- parent of this module; here Handle, and the nack of Dispatch, may wait for anything: they return only
-- in the states that `Returns` allows.
pub mod Draining
pub mod Counting
use expedit.Prelude.{ℕ, suc, ◌-◌, ◌<◌, ◌≡◌, Bool, true, false, List, [], ◌∷◌, ◌++◌}

-- Where a delivery stands that Dispatch was called with.
pub data Stage : Type 0 where
  entered : Stage  -- before `ctx.Err() == nil`
  choosing : Stage  -- at the `select`
  refusing : Stage  -- before `d.nack` of Dispatch returns
  slotted : Stage  -- behind `d.slots <- struct{}{}`
  handling : Stage  -- behind `d.wg.Add(1)`, until `d.Handle` returns
  releasing : Stage  -- before `<-d.slots`
  counting : Stage  -- before `d.wg.Done()`
  settled : Stage

-- `taken` is how many values are in the channel of slots, `wg` is the count of the WaitGroup.
pub record System : Type 0 where
  pub stages : List Stage
  pub taken : ℕ
  pub wg : ℕ
  pub ctx_done : Bool

-- A move of one delivery, with the slots taken and the count behind it.
pub data Turn (returns : Stage → Type 0) (slots : ℕ) (ctx_done : Bool) (taken wg : ℕ)
    : Stage → Stage → ℕ → ℕ → Type 0 where
  enter : ctx_done ≡ false → Turn returns slots ctx_done taken wg entered choosing taken wg
  refuse : ctx_done ≡ true → Turn returns slots ctx_done taken wg entered refusing taken wg
  take_slot : taken < slots → Turn returns slots ctx_done taken wg choosing slotted (suc taken) wg
  give_up : ctx_done ≡ true → Turn returns slots ctx_done taken wg choosing refusing taken wg
  nacked : returns refusing → Turn returns slots ctx_done taken wg refusing settled taken wg
  add : Turn returns slots ctx_done taken wg slotted handling taken (suc wg)
  handled : returns handling → Turn returns slots ctx_done taken wg handling releasing taken wg
  release : Turn returns slots ctx_done taken wg releasing counting (taken - 1) wg
  done : Turn returns slots ctx_done taken wg counting settled taken (wg - 1)

pub data Step (Returns : System → Stage → Type 0) (slots : ℕ) (s : System) : System → Type 0 where
  cancel : Step Returns slots s (record s { ctx_done = true })
  dispatch : Step Returns slots s (record s { stages = s.stages ++ entered ∷ [] })
  turn :
      (before after : List Stage) (x y : Stage) (t w : ℕ)
      → s.stages ≡ before ++ x ∷ after
      → Turn (Returns s) slots s.ctx_done s.taken s.wg x y t w
      → Step Returns slots s (record s { stages = before ++ y ∷ after; taken = t; wg = w })

abbrev pub start : System
start = record { stages = []; taken = 0; wg = 0; ctx_done = false }

pub data Reach (Returns : System → Stage → Type 0) (slots : ℕ) (s : System) : System → Type 0 where
  here : Reach Returns slots s s
  next : {t u : System} → Reach Returns slots s t → Step Returns slots t u → Reach Returns slots s u
