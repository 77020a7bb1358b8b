-- ===== src/Subscriber/Contract.antt =====
-- What a subscriber of core/subscriber/subscriber.go promises, without the order, the goroutines and
-- the channels that it is made of: a pool of messages, of which a bounded number is in flight, and
-- each of those is acked or goes back to the pool.
use expedit.Prelude.{ℕ, suc, ◌<◌, ◌+◌, ◌≡◌, Bool, true, false, ◌=?◌, if◌then◌else◌}

-- Each message with how often it is there.
abbrev pub Bag : Type 0
Bag = ℕ → ℕ

abbrev pub IsSame : Bag → Bag → Type 0
IsSame a b = (x : ℕ) → a x ≡ b x

-- `b` is `a` with a message more.
abbrev pub IsAdded : ℕ → Bag → Bag → Type 0
IsAdded m a b = (x : ℕ) → b x ≡ (if x =? m then 1 else 0) + a x

pub record Work : Type 0 where
  pub queued : Bag
  pub in_flight : Bag
  pub acked : Bag
  pub taken : ℕ  -- how many are in flight
  pub over : Bool  -- Receive has returned

pub data Serves (slots : ℕ) (w v : Work) : Type 0 where
  idle :
      IsSame v.queued w.queued
      → IsSame v.in_flight w.in_flight
      → IsSame v.acked w.acked
      → v.taken ≡ w.taken
      → v.over ≡ w.over
      → Serves slots w v
  begin :
      (m : ℕ)
      → w.taken < slots
      → w.over ≡ false
      → IsAdded m v.queued w.queued
      → IsAdded m w.in_flight v.in_flight
      → IsSame v.acked w.acked
      → v.taken ≡ suc w.taken
      → v.over ≡ false
      → Serves slots w v
  acknowledge :
      (m : ℕ)
      → w.over ≡ false
      → IsSame v.queued w.queued
      → IsAdded m v.in_flight w.in_flight
      → IsAdded m w.acked v.acked
      → w.taken ≡ suc v.taken
      → v.over ≡ false
      → Serves slots w v
  give_back :
      (m : ℕ)
      → w.over ≡ false
      → IsAdded m w.queued v.queued
      → IsAdded m v.in_flight w.in_flight
      → IsSame v.acked w.acked
      → w.taken ≡ suc v.taken
      → v.over ≡ false
      → Serves slots w v
  return :
      w.taken ≡ 0
      → IsSame v.queued w.queued
      → IsSame v.in_flight w.in_flight
      → IsSame v.acked w.acked
      → v.taken ≡ 0
      → v.over ≡ true
      → Serves slots w v

pub data Run (slots : ℕ) (w : Work) : Work → Type 0 where
  here : Run slots w w
  next : {v u : Work} → Run slots w v → Serves slots v u → Run slots w u
