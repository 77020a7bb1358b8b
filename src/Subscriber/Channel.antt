-- ===== src/Subscriber/Channel.antt =====
-- core/subscriber/channel.go: ChannelSubscriber, with the Dispatch and Wait of dispatcher.go, as the
-- interleavings of the receiving loop, the goroutines of the deliveries and the outside world. A
-- message is a number; its handler's result is left open.
pub mod Conservation
pub mod Drained
pub mod Refinement
pub mod Deadlock
use expedit.Prelude.{
  ℕ, suc, ◌+◌, ◌<◌, ◌≡◌, Bool, true, false, Option, none, some, List, [], ◌∷◌, ◌++◌, length,
  if◌then◌else◌,
}
use expedit.Go.Value.{ℤ, pos_part, is_positive}

-- NewChannelSubscriber: the number of slots.
unfoldable pub channel_slots : ℤ → ℕ
channel_slots max_in_flight = if is_positive max_in_flight then pos_part max_in_flight else 1

-- The loop of Receive, or the loop of drain.
pub data Phase : Type 0 where
  receiving draining : Phase

-- Where the goroutine of Receive stands.
pub data Loop : Type 0 where
  at : Phase → Loop  -- at the `select` of Receive, or at `d.Wait()` of drain
  polling : Loop  -- in drain, behind `d.Wait()`
  dispatching : Phase → ℕ → Loop  -- in Dispatch, before `ctx.Err() == nil`
  choosing : Phase → ℕ → Loop  -- at the `select` of Dispatch
  nacking : Phase → ℕ → Loop  -- in Dispatch, at `retry <- msg` of the delivery's Nack
  waiting : Loop  -- ctx is done: at `d.Wait()` of Receive
  returned : Loop

pub record System : Type 0 where
  pub loop : Loop
  pub input : List (Option ℕ)  -- what is, or will be, sent on inputCh; `none` is a nil message
  pub closes : Bool  -- whether inputCh is closed behind that
  pub retry : List ℕ  -- the messages in the retry channel
  pub running : List ℕ  -- the messages in a handler
  pub sending : List ℕ  -- the messages of goroutines at `retry <- msg`
  pub acked : List ℕ
  pub ctx_done : Bool

-- A goroutine holds its slot from Dispatch until Handle has returned.
abbrev pub slots_taken : System → ℕ
slots_taken s = length s.running + length s.sending

-- The capacity of the retry channel is one more than the slots.
pub data Step (slots : ℕ) (s : System) : System → Type 0 where
  cancel : Step slots s (record s { ctx_done = true })
  -- the select of Receive
  take_retry :
      (m : ℕ) (rest : List ℕ)
      → s.loop ≡ at receiving
      → s.retry ≡ m ∷ rest
      → Step slots s (record s { loop = dispatching receiving m; retry = rest })
  take_input :
      (m : ℕ) (rest : List (Option ℕ))
      → s.loop ≡ at receiving
      → s.input ≡ some m ∷ rest
      → Step slots s (record s { loop = dispatching receiving m; input = rest })
  skip_nil :
      (rest : List (Option ℕ))
      → s.loop ≡ at receiving
      → s.input ≡ none ∷ rest
      → Step slots s (record s { input = rest })
  input_over :
      s.loop ≡ at receiving
      → s.input ≡ []
      → s.closes ≡ true
      → Step slots s (record s { loop = at draining })
  stop : s.loop ≡ at receiving → s.ctx_done ≡ true → Step slots s (record s { loop = waiting })
  waited : s.loop ≡ waiting → slots_taken s ≡ 0 → Step slots s (record s { loop = returned })
  -- drain
  drain_waited :
      s.loop ≡ at draining → slots_taken s ≡ 0 → Step slots s (record s { loop = polling })
  drain_stop : s.loop ≡ polling → s.ctx_done ≡ true → Step slots s (record s { loop = returned })
  drain_retry :
      (m : ℕ) (rest : List ℕ)
      → s.loop ≡ polling
      → s.ctx_done ≡ false
      → s.retry ≡ m ∷ rest
      → Step slots s (record s { loop = dispatching draining m; retry = rest })
  drain_over :
      s.loop ≡ polling
      → s.ctx_done ≡ false
      → s.retry ≡ []
      → Step slots s (record s { loop = returned })
  -- Dispatch
  enter :
      (p : Phase) (m : ℕ)
      → s.loop ≡ dispatching p m
      → s.ctx_done ≡ false
      → Step slots s (record s { loop = choosing p m })
  refuse :
      (p : Phase) (m : ℕ)
      → s.loop ≡ dispatching p m
      → s.ctx_done ≡ true
      → Step slots s (record s { loop = nacking p m })
  take_slot :
      (p : Phase) (m : ℕ)
      → s.loop ≡ choosing p m
      → slots_taken s < slots
      → Step slots s (record s { loop = at p; running = m ∷ s.running })
  give_up :
      (p : Phase) (m : ℕ)
      → s.loop ≡ choosing p m
      → s.ctx_done ≡ true
      → Step slots s (record s { loop = nacking p m })
  nacked :
      (p : Phase) (m : ℕ)
      → s.loop ≡ nacking p m
      → length s.retry < suc slots
      → Step slots s (record s { loop = at p; retry = s.retry ++ m ∷ [] })
  -- the goroutine of a delivery: Handle
  handled :
      (before after : List ℕ) (m : ℕ)
      → s.running ≡ before ++ m ∷ after
      → Step slots s (record s { running = before ++ after; acked = m ∷ s.acked })
  handler_failed :
      (before after : List ℕ) (m : ℕ)
      → s.running ≡ before ++ m ∷ after
      → Step slots s (record s { running = before ++ after; sending = m ∷ s.sending })
  sent :
      (before after : List ℕ) (m : ℕ)
      → s.sending ≡ before ++ m ∷ after
      → length s.retry < suc slots
      → Step slots s (record s { sending = before ++ after; retry = s.retry ++ m ∷ [] })

-- A call of Receive on the messages `input`.
abbrev pub init : List (Option ℕ) → Bool → System
init input closes = record {
  loop = at receiving;
  input = input;
  closes = closes;
  retry = [];
  running = [];
  sending = [];
  acked = [];
  ctx_done = false;
}

pub data Reach (slots : ℕ) (s : System) : System → Type 0 where
  here : Reach slots s s
  next : {t u : System} → Reach slots s t → Step slots t u → Reach slots s u
