-- ===== src/Amqp/Channel.antt =====
-- amqp/channel.go: a channel that is opened again when it is lost, and a consumer on it. The channels of
-- the amqp library are numbers, in the order in which they were opened, and so are the messages. The
-- goroutine of watchDisconnects, that of one Consume, the calls of Close, the broker and ctx take
-- their steps in any order.
pub mod Leaking
pub mod Invariant
pub mod Forwarding
use expedit.Prelude.{
  ℕ, suc, ◌+◌, ◌<◌, ◌≡◌, String, Bool, true, false, ◌||◌, ◌=?◌, List, [], ◌∷◌, ◌++◌, if◌then◌else◌,
  update,
}
use expedit.Go.Value.{ℤ, Error, sentinel, wrap}
use expedit.Handler.{Ret, ok, failed, panicked, Call}
use expedit.Amqp.Connection.{RetryDelayStrategy, Notice, gone, over, ReconnectingConnection}

abbrev pub err_queue_not_found : Error
err_queue_not_found = sentinel "queue does not exist"

-- The result of the first ConsumeWithContext. `is_not_found` says whether an error is an amqp.Error
-- with the code NotFound.
unfoldable pub consume_result : {W A : Type 0} → (Error → Bool) → String → Ret W A → Ret W A
consume_result is_not_found queue (ok d s) = ok d s
consume_result is_not_found queue (failed e s) =
    if is_not_found e then failed (wrap queue err_queue_not_found) s else failed e s
consume_result is_not_found queue (panicked v s) = panicked v s

-- `channel` is `ch.Channel`.
pub record ReconnectingChannel : Type 0 where
  pub channel : ℕ
  pub connection : ReconnectingConnection
  pub closed : Bool

-- The method Channel of a connection. `open` is that of the amqp library's connection; the goroutine
-- that a success starts is `listening` to it.
unfoldable pub open_channel :
    {W : Type 0} → (ℕ → Call W ℕ) → ReconnectingConnection → Call W ReconnectingChannel
open_channel open_on c s = elim (open_on c.connection s) [
  | ok chan t ↦ ok (record { channel = chan; connection = c; closed = false }) t
  | failed e t ↦ failed e t
  | panicked v t ↦ panicked v t
]

-- Where the goroutine of watchDisconnects stands.
pub data Watcher : Type 0 where
  listening : Watcher  -- before NotifyClose of `ch.Channel`
  waiting : ℕ → Watcher  -- at the receive, on that channel
  heard : Notice → Watcher  -- behind the receive
  leaving : Watcher  -- before `ch.Channel.Close()`
  retrying : Watcher  -- before the call of the retry strategy
  sleeping : ℤ → Watcher
  opening : Watcher  -- at the Channel call of the connection
  exited : Watcher

-- Where the goroutine of Consume stands.
pub data Consumer : Type 0 where
  ranging : Consumer  -- at `range d`
  sending : ℕ → Consumer  -- at the `select` with `deliveries <- msg`
  drained : Consumer  -- behind the loop over d, which is closed
  testing : Consumer  -- before `ctx.Err() != nil || ch.IsClosed()`
  delaying : ℤ → Consumer  -- at the `select` with `time.After`
  consuming : Consumer  -- at ConsumeWithContext
  ended : Consumer  -- `deliveries` is closed

-- Where the call of Close stands that has set the flag.
pub data Closer : Type 0 where
  idle flagged : Closer

pub record System : Type 0 where
  pub current : ℕ  -- `ch.Channel`
  pub closed : Bool  -- `ch.closed`
  pub closer : Closer
  pub shut : ℕ → Bool  -- the channels that are not open any more
  pub made : ℕ  -- how many channels were opened
  pub watcher : Watcher
  pub attempts : ℕ
  pub ctx_done : Bool
  pub consumer : Consumer
  pub consuming_on : ℕ
  pub retries : ℕ  -- `reconnectionAttempts` of Consume
  pub pending : List ℕ  -- what is in d
  pub d_over : Bool  -- d is closed behind that
  pub sent : List ℕ  -- what was sent to `deliveries`
  pub delivered : List ℕ  -- what the broker has put into d; not part of the program
  pub cancelled : Bool  -- the broker has cancelled a consumer; not part of the program

-- A channel ends: its consumer's d is closed, and who waits for it hears of it.
abbrev hears : Notice → ℕ → Watcher → Watcher
hears n chan (waiting c) = if c =? chan then heard n else waiting c
hears n chan w = w

abbrev pub ends : Notice → ℕ → System → System
ends n chan s = record s {
  shut = update s.shut chan true;
  watcher = hears n chan s.watcher;
  d_over = s.d_over || (s.consuming_on =? chan);
}

-- `late` is what NotifyClose gives on a channel that is not open any more.
pub data Step (strategy : RetryDelayStrategy) (late : Notice) (s : System) : System → Type 0 where
  -- watchDisconnects
  listen :
      s.watcher ≡ listening
      → s.shut s.current ≡ false
      → Step strategy late s (record s { watcher = waiting s.current })
  listen_late :
      s.watcher ≡ listening
      → s.shut s.current ≡ true
      → Step strategy late s (record s { watcher = heard late })
  leave_over : s.watcher ≡ heard over → Step strategy late s (record s { watcher = leaving })
  leave_closed :
      (n : Notice)
      → s.watcher ≡ heard n
      → s.closed ≡ true
      → Step strategy late s (record s { watcher = leaving })
  leave :
      s.watcher ≡ leaving
      → Step strategy late s (record (ends over s.current s) { watcher = exited })
  retry :
      s.watcher ≡ heard gone
      → s.closed ≡ false
      → Step strategy late s (record s { watcher = retrying; attempts = 0 })
  delay :
      s.watcher ≡ retrying
      → Step strategy late s (record s { watcher = sleeping (strategy s.attempts) })
  wake :
      (t : ℤ)
      → s.watcher ≡ sleeping t
      → Step strategy late s (record s { watcher = opening; attempts = s.attempts + 1 })
  open_failed : s.watcher ≡ opening → Step strategy late s (record s { watcher = retrying })
  opened :
      s.watcher ≡ opening
      → s.shut s.made ≡ false
      → Step strategy late s (record s { watcher = listening; current = s.made; made = suc s.made })
  -- Close; a call that finds the flag set returns at once
  flag : s.closed ≡ false → Step strategy late s (record s { closed = true; closer = flagged })
  close_channel :
      s.closer ≡ flagged → Step strategy late s (record (ends over s.current s) { closer = idle })
  -- Consume
  take :
      (m : ℕ) (rest : List ℕ)
      → s.consumer ≡ ranging
      → s.pending ≡ m ∷ rest
      → Step strategy late s (record s { consumer = sending m; pending = rest })
  drain :
      s.consumer ≡ ranging
      → s.pending ≡ []
      → s.d_over ≡ true
      → Step strategy late s (record s { consumer = drained })
  send :
      (m : ℕ)
      → s.consumer ≡ sending m
      → Step strategy late s (record s { consumer = ranging; sent = s.sent ++ m ∷ [] })
  drop :
      (m : ℕ)
      → s.consumer ≡ sending m
      → s.ctx_done ≡ true
      → Step strategy late s (record s { consumer = ended })
  end :
      s.consumer ≡ drained
      → s.shut s.consuming_on ≡ false
      → Step strategy late s (record s { consumer = ended })
  lost :
      s.consumer ≡ drained
      → s.shut s.consuming_on ≡ true
      → Step strategy late s (record s { consumer = testing })
  give_up :
      s.consumer ≡ testing
      → (s.ctx_done || s.closed) ≡ true
      → Step strategy late s (record s { consumer = ended })
  go_on :
      s.consumer ≡ testing
      → (s.ctx_done || s.closed) ≡ false
      → Step strategy late s (record s { consumer = delaying (strategy s.retries) })
  stop :
      (t : ℤ)
      → s.consumer ≡ delaying t
      → s.ctx_done ≡ true
      → Step strategy late s (record s { consumer = ended })
  consume :
      (t : ℤ)
      → s.consumer ≡ delaying t
      → Step strategy late s
          (record s { consumer = consuming; retries = s.retries + 1; consuming_on = s.current })
  consume_failed : s.consumer ≡ consuming → Step strategy late s (record s { consumer = testing })
  consumed :
      s.consumer ≡ consuming
      → s.shut s.consuming_on ≡ false
      → Step strategy late s
          (record s { consumer = ranging; retries = 0; pending = []; d_over = false })
  -- ctx and the broker
  cancel : Step strategy late s (record s { ctx_done = true })
  lose : (chan : ℕ) → chan < s.made → s.shut chan ≡ false → Step strategy late s (ends gone chan s)
  deliver :
      (m : ℕ)
      → s.d_over ≡ false
      → Step strategy late s
          (record s { pending = s.pending ++ m ∷ []; delivered = s.delivered ++ m ∷ [] })
  cancel_consumer : Step strategy late s (record s { d_over = true; cancelled = true })
  ctx_cancels : s.ctx_done ≡ true → Step strategy late s (record s { d_over = true })

-- The first ConsumeWithContext has succeeded.
abbrev pub start : System
start = record {
  current = 0;
  closed = false;
  closer = idle;
  shut = λ chan. false;
  made = 1;
  watcher = listening;
  attempts = 0;
  ctx_done = false;
  consumer = ranging;
  consuming_on = 0;
  retries = 0;
  pending = [];
  d_over = false;
  sent = [];
  delivered = [];
  cancelled = false;
}

pub data Reach (strategy : RetryDelayStrategy) (late : Notice) (s : System) : System → Type 0 where
  here : Reach strategy late s s
  next : {t u : System} → Reach strategy late s t → Step strategy late t u → Reach strategy late s u
