-- ===== src/Amqp/Connection.antt =====
-- amqp/connection.go: a connection that is dialled again when it is lost. The connections of the amqp
-- library are numbers, in the order in which they were made; the goroutine of watchDisconnects, the
-- broker and the program that closes a connection take their steps in any order.
pub mod Once
use expedit.Prelude.{
  ℕ, suc, ◌+◌, ◌<◌, ◌≡◌, String, Bool, true, false, ◌&&◌, ◌=?◌, List, [], ◌∷◌, if◌then◌else◌,
  update,
}
use expedit.Go.Value.{ℤ, pos, Error}
use expedit.Handler.{Run, Ret, ok, failed, panicked, Call}

-- The delay before an attempt, by the number of attempts before it.
abbrev pub RetryDelayStrategy : Type 0
RetryDelayStrategy = ℕ → ℤ

pub record ConnectionOptions : Type 0 where
  pub retry_strategy : RetryDelayStrategy

abbrev pub ConnectionOption : Type 0
ConnectionOption = ConnectionOptions → ConnectionOptions

unfoldable pub with_reconnection_retry : RetryDelayStrategy → ConnectionOption
with_reconnection_retry strategy opts = record opts { retry_strategy = strategy }

-- One second.
unfoldable pub default_retry_strategy : RetryDelayStrategy
default_retry_strategy iteration_count = pos 1000000000

unfoldable pub apply_options : List ConnectionOption → ConnectionOptions → ConnectionOptions
apply_options [] options = options
apply_options (opt ∷ opts) options = apply_options opts (opt options)

-- The field of amqp.Config that the code sets.
pub record Config : Type 0 where
  pub locale : String

pub record ReconnectingConnection : Type 0 where
  pub connection : ℕ
  pub url : String
  pub opts : ConnectionOptions

abbrev connected :
    {W : Type 0} → String → ConnectionOptions → Ret W ℕ → Ret W ReconnectingConnection
connected url options (ok conn s) = ok (record { connection = conn; url = url; opts = options }) s
connected url options (failed e s) = failed e s
connected url options (panicked v s) = panicked v s

-- `dial_to` is amqp.DialConfig. The goroutine that a success starts is at `start` of the connection.
unfoldable pub dial_config :
    {W : Type 0}
    → (String → Config → Call W ℕ)
    → String
    → Config
    → List ConnectionOption
    → Call W ReconnectingConnection
unfolding apply_options
dial_config dial_to url config opts s =
    connected url (apply_options opts (record { retry_strategy = default_retry_strategy }))
      (dial_to url config s)

unfoldable pub dial :
    {W : Type 0}
    → (String → Config → Call W ℕ)
    → String
    → List ConnectionOption
    → Call W ReconnectingConnection
unfolding dial_config
dial dial_to url opts = dial_config dial_to url (record { locale = "en_US" }) opts

-- What a receive from the channel of NotifyClose gives: an error, or that the channel is closed.
pub data Notice : Type 0 where
  gone over : Notice

-- Where the goroutine of watchDisconnects stands.
pub data Watcher : Type 0 where
  listening : Watcher  -- before NotifyClose
  waiting : Watcher  -- at the receive, on a connection that was open
  retrying : Watcher  -- before the call of the retry strategy
  sleeping : ℤ → Watcher
  dialling : Watcher  -- in amqp.Dial
  exited : Watcher

-- `watched` is the variable `connection` of the goroutine, `attempts` is `reconnectionAttempts`.
pub record System : Type 0 where
  pub connection : ℕ
  pub watched : ℕ
  pub attempts : ℕ
  pub watcher : Watcher
  pub shut : ℕ → Bool  -- the connections that are not open any more
  pub made : ℕ  -- how many connections were made

abbrev pub noticed : Notice → System → System
noticed gone s = record s { attempts = 0; watcher = retrying }
noticed over s = record s { watcher = exited }

abbrev pub is_waiting : Watcher → Bool
is_waiting waiting = true
is_waiting w = false

-- The end of a connection is told to the goroutine if it waits for that one.
abbrev pub told : Notice → ℕ → System → System
told n conn s =
    if is_waiting s.watcher && (conn =? s.watched)
    then noticed n (record s { shut = update s.shut conn true })
    else record s { shut = update s.shut conn true }

-- `late` is what NotifyClose gives on a connection that is not open any more.
pub data Step (strategy : RetryDelayStrategy) (late : Notice) (s : System) : System → Type 0 where
  -- the goroutine
  listen :
      s.watcher ≡ listening
      → s.shut s.watched ≡ false
      → Step strategy late s (record s { watcher = waiting })
  listen_late :
      s.watcher ≡ listening → s.shut s.watched ≡ true → Step strategy late s (noticed late s)
  delay :
      s.watcher ≡ retrying
      → Step strategy late s (record s { watcher = sleeping (strategy s.attempts) })
  wake :
      (d : ℤ)
      → s.watcher ≡ sleeping d
      → Step strategy late s (record s { watcher = dialling; attempts = s.attempts + 1 })
  dial_failed : s.watcher ≡ dialling → Step strategy late s (record s { watcher = retrying })
  dialled :
      s.watcher ≡ dialling
      → Step strategy late s
          (record s { watcher = listening; connection = s.made; made = suc s.made })
  -- a connection is lost, or closed by the program
  lose : (conn : ℕ) → conn < s.made → s.shut conn ≡ false → Step strategy late s (told gone conn s)
  close : (conn : ℕ) → conn < s.made → s.shut conn ≡ false → Step strategy late s (told over conn s)

-- After the first dial.
abbrev pub start : System
start = record {
  connection = 0;
  watched = 0;
  attempts = 0;
  watcher = listening;
  shut = λ conn. false;
  made = 1;
}

pub data Reach (strategy : RetryDelayStrategy) (late : Notice) (s : System) : System → Type 0 where
  here : Reach strategy late s s
  next : {t u : System} → Reach strategy late s t → Step strategy late t u → Reach strategy late s u
