-- ===== src/Middleware/Flow/Throttle.antt =====
-- core/message/middleware/flow.go: Throttle. A time.Ticker is modelled by the time of its next tick:
-- its channel holds one tick, and ticks that find it full are dropped. Times and durations are
-- natural numbers of nanoseconds.
pub mod Rate
use expedit.Prelude.{ℕ, ◌+◌, ◌*◌, ◌/◌, ◌-◌, Option, none, some, ◌=?◌, leb, if◌then◌else◌}
use expedit.Handler.{Run, Handler}
use expedit.Middleware.Chain.{Middleware}

pub record Ticker : Type 0 where
  pub next : ℕ
  pub period : ℕ

-- time.NewTicker at the time `now`: a panic (`none`) if the period is not positive.
abbrev new_ticker : ℕ → ℕ → Option Ticker
new_ticker now period =
    if period =? 0 then none else some (record { next = now + period; period = period })

-- `time.NewTicker(perDuration / time.Duration(max))`; a division by 0 panics too.
unfoldable pub throttle_ticker : ℕ → ℕ → ℕ → Option Ticker
throttle_ticker now max per_duration =
    if max =? 0 then none else new_ticker now (per_duration / max)

-- `<-ticker.C` at the time `now`: the time when it returns, and the ticker then. A tick that waits
-- in the channel is taken at once, and the ticks missed in the meantime are lost.
unfoldable pub receive : Ticker → ℕ → ℕ × Ticker
receive t now =
    if leb t.next now
    then (now, record t { next = t.next + t.period * ((now - t.next) / t.period + 1) })
    else (t.next, record t { next = t.next + t.period })

-- The ticker is shared by all calls of the middleware, so it lives in the world.
unfoldable pub throttle : {W : Type 0} → (W → Ticker) → (Ticker → W → W) → Middleware W
throttle get put next s =
    let (time, t) = receive (get s.world) s.now in
    next (record s { now = time; world = put t s.world })
