-- ===== src/Amqp/Channel/Leaking.antt =====
-- What is left open by Close.
use expedit.Prelude.{ℕ, suc, ◌+◌, ◌<◌, ◌≡◌, refl, Bool, true, false, arith, ◌∙◌}
use expedit.Amqp.Connection.{RetryDelayStrategy, Notice, gone, over}
use expedit.Amqp.Channel.{
  Watcher, listening, waiting, heard, leaving, retrying, sleeping, opening, exited, idle, System,
  ends, Step, listen, listen_late, leave_over, leave_closed, leave, retry, delay, wake, open_failed,
  opened, flag, close_channel, take, drain, send, drop, end, lost, give_up, go_on, stop, consume,
  consume_failed, consumed, cancel, lose, deliver, cancel_consumer, ctx_cancels, start, Reach, here,
  next,
}

-- The goroutine is about to open a channel again.
abbrev pub IsReopening : Watcher → Type 0
IsReopening retrying = Unit
IsReopening (sleeping d) = Unit
IsReopening opening = Unit
IsReopening w = ⊥

-- The channels that have ended are of those that were opened.
abbrev IsFresh : System → Type 0
IsFresh s = (s.current < s.made) × ((n : ℕ) → s.shut n ≡ true → n < s.made)

ends-IsFresh :
    (x : Notice) (chan : ℕ) (s : System) → chan < s.made → IsFresh s → IsFresh (ends x chan s)
ends-IsFresh x chan s b (c, old) = (c, λ n h. ground (arith, old n))

fresh : (s : System) → IsFresh s → s.shut s.made ≡ false
fresh s (c, old) = tested (s.shut s.made) refl
  where
    tested : (b : Bool) → s.shut s.made ≡ b → s.shut s.made ≡ false
    tested true e = absurd (omega (arith, old s.made e))
    tested false e = e

module _ {strategy : RetryDelayStrategy} {late : Notice} where
  Reach-trans :
      {s t u : System} → Reach strategy late s t → Reach strategy late t u → Reach strategy late s u
  Reach-trans r here = r
  Reach-trans r (next q st) = next (Reach-trans r q) st

  Step-IsFresh : {s t : System} → Step strategy late s t → IsFresh s → IsFresh t
  Step-IsFresh (listen w o) v = v
  Step-IsFresh (listen_late w o) v = v
  Step-IsFresh (leave_over w) v = v
  Step-IsFresh (leave_closed n w c) v = v
  Step-IsFresh (retry w c) v = v
  Step-IsFresh (delay w) v = v
  Step-IsFresh (wake d w) v = v
  Step-IsFresh (open_failed w) v = v
  Step-IsFresh (flag c) v = v
  Step-IsFresh (take m rest c e) v = v
  Step-IsFresh (drain c e o) v = v
  Step-IsFresh (send m c) v = v
  Step-IsFresh (drop m c d) v = v
  Step-IsFresh (end c o) v = v
  Step-IsFresh (lost c o) v = v
  Step-IsFresh (give_up c o) v = v
  Step-IsFresh (go_on c o) v = v
  Step-IsFresh (stop d c o) v = v
  Step-IsFresh (consume d c) v = v
  Step-IsFresh (consume_failed c) v = v
  Step-IsFresh (consumed c o) v = v
  Step-IsFresh cancel v = v
  Step-IsFresh (deliver m o) v = v
  Step-IsFresh cancel_consumer v = v
  Step-IsFresh (ctx_cancels d) v = v
  Step-IsFresh {s} (leave w) v = ends-IsFresh over s.current s v.0 v
  Step-IsFresh {s} (close_channel c) v = ends-IsFresh over s.current s v.0 v
  Step-IsFresh {s} (lose chan b o) v = ends-IsFresh gone chan s b v
  Step-IsFresh {s} (opened w o) v = (omega arith, λ n h. omega (arith, v.1 n h))

  Reach-IsFresh : {s t : System} → Reach strategy late s t → IsFresh s → IsFresh t
  Reach-IsFresh here v = v
  Reach-IsFresh (next r st) v = Step-IsFresh st (Reach-IsFresh r v)

  -- Where the channel that is opened next is not open yet.
  opens :
      (w : Watcher) (s : System)
      → s.watcher ≡ w
      → IsReopening w
      → s.shut s.made ≡ false
      → (t : System) × Reach strategy late s t
        × (t.watcher ≡ waiting t.current)
        × (t.shut t.current ≡ false)
        × (t.closed ≡ s.closed)
        × (t.closer ≡ s.closer)
  opens listening s e h f = elim h [ ]
  opens (waiting c) s e h f = elim h [ ]
  opens (heard n) s e h f = elim h [ ]
  opens leaving s e h f = elim h [ ]
  opens exited s e h f = elim h [ ]
  opens opening s e h f = (
    record s { watcher = waiting s.made; current = s.made; made = suc s.made },
    next (next here (opened e f)) (listen refl f),
    refl,
    f,
    refl,
    refl,
  )
  opens (sleeping d) s e h f =
      let asked = record s { watcher = opening; attempts = s.attempts + 1 } in
      (
        record asked { watcher = waiting s.made; current = s.made; made = suc s.made },
        next (next (next here (wake d e)) (opened refl f)) (listen refl f),
        refl,
        f,
        refl,
        refl,
      )
  opens retrying s e h f =
      let asked = record s { watcher = opening; attempts = s.attempts + 1 } in
      (
        record asked { watcher = waiting s.made; current = s.made; made = suc s.made },
        next (next (next (next here (delay e)) (wake (strategy s.attempts) refl)) (opened refl f))
            (listen refl f),
        refl,
        f,
        refl,
        refl,
      )

  -- From every reachable state in which Close has returned, while the goroutine of watchDisconnects is
  -- about to open a channel again (it waits for the retry delay, or asks the connection), a state is
  -- reachable in which the goroutine waits for the end of a channel that is open, though the flag of
  -- Close is set and no call of Close is at work.
  pub close_leaks :
      {s : System}
      → Reach strategy late start s
      → s.closed ≡ true
      → s.closer ≡ idle
      → IsReopening s.watcher
      → (t : System) × Reach strategy late start t
        × (t.watcher ≡ waiting t.current)
        × (t.shut t.current ≡ false)
        × (t.closed ≡ true)
        × (t.closer ≡ idle)
  close_leaks {s} r c i w =
      let v = Reach-IsFresh r (omega arith, λ n h. cc) in
      let (t, q, waits, live, same, quiet) = opens s.watcher s refl w (fresh s v) in
      (t, Reach-trans r q, waits, live, same ∙ c, quiet ∙ i)
