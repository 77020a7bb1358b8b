-- ===== src/Middleware/Flow/Throttle/Rate.antt =====
-- The rate that Throttle enforces.
use expedit.Prelude.{
  ℕ, ◌+◌, ◌*◌, ◌/◌, ◌-◌, ◌≤◌, ◌<◌, ◌≡◌, refl, ap, List, [], ◌∷◌, arith, length, some, leb,
  Bool-cases, inl, inr, true, false,
}
use expedit.Handler.{Run, ok, final}
use expedit.Middleware.Flow.Throttle.{Ticker, throttle_ticker, receive, throttle}

leb→le : (a b : ℕ) → leb a b ≡ true → a ≤ b
leb→le a b h = ground arith

not_leb : (a b : ℕ) → leb a b ≡ false → b < a
not_leb a b h = ground arith

receive_step :
    (t : Ticker) (now : ℕ)
    → (now ≤ (receive t now).0)
      × (t.next ≤ (receive t now).0)
      × (t.next + t.period ≤ (receive t now).1.next)
      × ((receive t now).1.period ≡ t.period)
unfolding receive
receive_step t now = elim (Bool-cases (leb t.next now)) [
  | inl late ↦ rw late (omega arith, omega (arith, leb→le t.next now late), later, refl)
  | inr soon ↦ rw soon (omega (arith, not_leb t.next now soon), omega arith, omega arith, refl)
]
  where
    later : t.next + t.period ≤ t.next + t.period * ((now - t.next) / t.period + 1)
    later = grind arith

-- After a receive the next tick lies in the future.
receive-lt-next : (t : Ticker) (now : ℕ) → 0 < t.period → (receive t now).0 < (receive t now).1.next
unfolding receive
receive-lt-next t now h = elim (Bool-cases (leb t.next now)) [
  | inl late ↦ rw late (grind (arith, leb→le t.next now late))
  | inr soon ↦ rw soon (omega arith)
]

-- A call of a throttled handler that does nothing, `gap` after the state's time.
abbrev pub call : Run Ticker → ℕ → Run Ticker
call s gap = final (throttle (λ t. t) (λ t _. t) (λ r. ok tt r) (record s { now = s.now + gap }))

abbrev pub calls : Run Ticker → List ℕ → Run Ticker
calls s [] = s
calls s (gap ∷ gaps) = calls (call s gap) gaps

calls-le :
    (s : Run Ticker) (gap : ℕ) (gaps : List ℕ)
    → s.world.next + s.world.period * length gaps ≤ (calls s (gap ∷ gaps)).now
unfolding throttle
calls-le s gap [] = omega (arith, receive_step s.world (s.now + gap))
calls-le s gap (g ∷ gaps) =
    let step = receive_step s.world (s.now + gap) in
    omega (arith, calls-le (call s gap) g gaps, step, ap (λ (p : ℕ). p * length gaps) step.3)

-- However the calls of a throttled handler arrive (each a gap after the last one ran), the handler
-- of the call that comes n + 1 calls after another runs more than n periods after it; so in any n
-- periods at most n + 1 messages pass. The period of the ticker is positive.
pub throttle_rate :
    (s : Run Ticker) (first gap : ℕ) (gaps : List ℕ)
    → 0 < s.world.period
    → (call s first).now + s.world.period * length gaps < (calls s (first ∷ gap ∷ gaps)).now
unfolding throttle
throttle_rate s first gap gaps h =
    let step = receive_step s.world (s.now + first) in
    omega (
      arith,
      calls-le (call s first) gap gaps,
      receive-lt-next s.world (s.now + first) h,
      ap (λ (p : ℕ). p * length gaps) step.3,
    )

-- Where Throttle(max, perDuration) makes a ticker, the ticker has a positive period, max periods fit
-- into perDuration, and its first tick comes one period after it is made.
pub throttle_ticker-period :
    (now max per_duration : ℕ) {t : Ticker}
    → throttle_ticker now max per_duration ≡ some t
    → (0 < t.period) × (t.period * max ≤ per_duration) × (t.next ≡ now + t.period)
unfolding throttle_ticker
throttle_ticker-period now max per_duration h = grind arith
