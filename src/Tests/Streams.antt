-- ===== src/Tests/Streams.antt =====
-- A redis subscriber without a consumer group, at a concrete stream.
use expedit.Prelude.{
  ℕ, zero, suc, ◌+◌, ◌≡◌, refl, false, none, some, List, [], ◌∷◌, ◌++◌, ◌==◌, if◌then◌else◌, String,
}
use expedit.Go.Value.{new, pos, nil}
use expedit.Go.Context.{Context, background}
use expedit.Message.{Message}
use expedit.Handler.{Run, ok, failed}
use expedit.Subscriber.Dispatcher.{Delivery}
use expedit.Redis.Values.{XMessage}
use expedit.Redis.Subscriber.{RedisSubscriber, default_options}
use expedit.Redis.Subscriber.Receiving.{
  Client, ReadArgs, loop, cycle, dispatch_all, dispatch_streams,
}
use expedit.Redis.Subscriber.Receiving.Resuming.{
  Stream, id_before, IsRead, Serves, messages, loop_dispatches,
}

-- All entries but the first have one ID, and are not there yet.
abbrev entry : ℕ → XMessage
entry zero = record { id = "1-0"; values = [] }
entry (suc k) = record { id = "2-0"; values = [] }

abbrev stream : Stream
stream = record { first = "0-0"; entry = entry }

abbrev arrived : String → List XMessage
arrived start = if start == "0-0" then entry 0 ∷ [] else []

-- A read takes a nanosecond.
abbrev client : Client (List Message)
client = record {
  group_create = λ ctx stream group start s. ok tt s;
  group_create_mk_stream = λ ctx stream group start s. ok tt s;
  auto_claim = λ ctx claim s. ok ([], "0-0") s;
  read = λ ctx read s. ok (arrived read.start ∷ []) (record s { now = s.now + 1 });
  read_group = λ ctx read s. failed (new "boom") s;
  last_generated_id = λ ctx stream s. ok "5-0" s;
  ack = λ ctx stream group id s. ok tt s;
  is_nil = λ e. false;
  mentions = λ e text. false;
}

abbrev dispatch : Delivery (List Message) → Run (List Message) → Run (List Message)
dispatch d s = record s { world = s.world ++ d.message ∷ [] }

abbrev log : List Message → List Message
log w = w

serves : Serves stream log client dispatch
serves = record { by_read = reads; by_dispatch = λ d s. refl }
  where
    reads :
        (c : Context) (a : ReadArgs) (k : ℕ) (s : Run (List Message))
        → a.start ≡ id_before stream k
        → IsRead stream log k s.world (client.read c a s)
    reads c a zero s e = rw e ((1, refl), refl)
    reads c a (suc zero) s e = rw e ((0, refl), refl)
    reads c a (suc (suc k)) s e = rw e ((0, refl), refl)

abbrev subscriber : RedisSubscriber (List Message)
subscriber = record { stream = "orders"; options = default_options; processing_timeout = pos 1 }

abbrev ctx : Context
ctx = record background { deadline = some 2 }

abbrev before : Run (List Message)
before = record {
  message = record { id = ""; metadata = none; payload = nil; ctx = background };
  world = [];
  now = 0;
  next_scope = 0;
  cancelled = [];
}

-- The second read finds nothing, then ctx is done.
abbrev after : Run (List Message)
after = record before {
  now = 2;
  world = messages stream log client subscriber "c" dispatch (λ s. s) ctx serves 0 1;
}

loop_dispatches_example :
    (n : ℕ) × (after.world
      ≡ messages stream log client subscriber "c" dispatch (λ s. s) ctx serves 0 n)
unfolding loop cycle dispatch_all dispatch_streams
loop_dispatches_example =
    loop_dispatches stream log client subscriber "c" dispatch (λ s. s) ctx serves 3
      (record { start_id = "0-0"; claim_start = "0-0" }) before (ok tt after) refl refl refl
