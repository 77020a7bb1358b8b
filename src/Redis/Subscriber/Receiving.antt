-- ===== src/Redis/Subscriber/Receiving.antt =====
-- redis/subscriber.go: Receive. The calls of the redis client are fields of a record; `dispatch` and
-- `wait` stand for the dispatcher, whose goroutines run beside the loop.
pub mod Failing
pub mod Terminating
pub mod Resuming
use expedit.Prelude.{
  ℕ, zero, suc, String, Bool, Option, none, some, List, [], ◌∷◌, ◌==◌, if◌then◌else◌, Map,
}
use expedit.Go.Value.{ℤ, Value, Error, sentinel, dict, to_fields}
use expedit.Go.Context.{Context}
use expedit.Message.{Message, new_message}
use expedit.Handler.{Run, Ret, ok, failed, panicked, Call, Handler, err_of}
use expedit.Subscriber.Dispatcher.{Delivery, DispatchOptions}
use expedit.Redis.Values.{XMessage, MessageWrapper, Extractor}
use expedit.Redis.Subscriber.{RedisSubscriber, start_from_latest}

pub record ClaimArgs : Type 0 where
  pub stream : String
  pub group : String
  pub consumer : String
  pub min_idle : ℤ
  pub start : String
  pub count : ℤ

pub record ReadArgs : Type 0 where
  pub group : String  -- empty for XRead
  pub consumer : String
  pub stream : String
  pub start : String
  pub count : ℤ
  pub block : ℤ

-- What the code uses of redis.Client. A read returns the messages of each stream that it read.
pub record Client (W : Type 0) : Type 0 where
  pub group_create : Context → String → String → String → Handler W
  pub group_create_mk_stream : Context → String → String → String → Handler W
  pub auto_claim : Context → ClaimArgs → Call W (List XMessage × String)
  pub read : Context → ReadArgs → Call W (List (List XMessage))
  pub read_group : Context → ReadArgs → Call W (List (List XMessage))
  pub last_generated_id : Context → String → Call W String  -- of XInfoStream
  pub ack : Context → String → String → String → Handler W
  pub is_nil : Error → Bool  -- errors.Is(err, redis.Nil)
  pub mentions : Error → String → Bool  -- strings.Contains(err.Error(), …)

abbrev pub stream_does_not_exist : Error
stream_does_not_exist = sentinel "stream does not exist"

-- What createConsumerGroup makes of the result of the command.
abbrev group_result : {W : Type 0} → Client W → Ret W (Unit {0}) → Ret W (Unit {0})
group_result client (ok a s) = ok a s
group_result client (failed e s) =
    if client.mentions e "The XGROUP subcommand requires the key to exist"
    then failed stream_does_not_exist s
    else if client.mentions e "BUSYGROUP"
    then ok tt s
    else failed e s
group_result client (panicked v s) = panicked v s

unfoldable pub create_consumer_group :
    {W : Type 0} → Client W → RedisSubscriber W → Context → Handler W
create_consumer_group client sub ctx s =
    let o = sub.options in
    if o.consumer_group == ""
    then ok tt s
    else group_result client (
        if o.create_stream_if_missing
        then client.group_create_mk_stream ctx sub.stream o.consumer_group o.consumer_group_start_id
            s
        else client.group_create ctx sub.stream o.consumer_group o.consumer_group_start_id s)

-- A stream that does not exist yet is read from its start.
abbrev start_result : {W : Type 0} → Client W → Ret W String → Ret W String
start_result client (ok id s) = ok id s
start_result client (failed e s) =
    if client.mentions e "no such key" then ok "0-0" s else failed e s
start_result client (panicked v s) = panicked v s

unfoldable pub resolve_start_id :
    {W : Type 0} → Client W → RedisSubscriber W → Context → Call W String
resolve_start_id client sub ctx s =
    let o = sub.options in
    if o.consumer_group == ""
    then if o.start_id == start_from_latest
      then start_result client (client.last_generated_id ctx sub.stream s)
      else ok o.start_id s
    else ok o.start_id s

abbrev extracted : Option Extractor → MessageWrapper → Map Value → Map Value
extracted none wrapper values = values
extracted (some extract) wrapper values = extract wrapper

unfoldable pub to_message : {W : Type 0} → RedisSubscriber W → Context → MessageWrapper → Message
to_message sub ctx wrapper =
    let payload = extracted sub.options.payload_extractor wrapper wrapper.msg.values in
    record (new_message ctx (dict (to_fields payload))) {
      id = wrapper.msg.id;
      metadata = some (extracted sub.options.metadata_extractor wrapper []);
    }

unfoldable pub delivery :
    {W : Type 0} → Client W → RedisSubscriber W → Context → XMessage → Delivery W
unfolding to_message
delivery client sub ctx msg =
    let group = sub.options.consumer_group in
    record {
      message =
          to_message sub ctx (record { stream = sub.stream; consumer_group = group; msg = msg });
      ack = λ c s. if group == "" then ok tt s else client.ack c sub.stream group msg.id s;
      nack = λ c s. ok tt s;
    }

-- The variables that the loop of `receive` changes.
pub record Cursor : Type 0 where
  pub start_id : String
  pub claim_start : String

module _ {W : Type 0} (client : Client W) (sub : RedisSubscriber W) (consumer : String)
    (dispatch : Delivery W → Run W → Run W) (wait : Run W → Run W) (ctx : Context) where
  unfoldable pub dispatch_all : List XMessage → Run W → Run W
  dispatch_all [] s = s
  dispatch_all (msg ∷ msgs) s = dispatch_all msgs (dispatch (delivery client sub ctx msg) s)

  unfoldable pub dispatch_streams : List (List XMessage) → Run W → Run W
  unfolding dispatch_all
  dispatch_streams [] s = s
  dispatch_streams (msgs ∷ streams) s = dispatch_streams streams (dispatch_all msgs s)

  -- `startID = msg.ID` for each message that was read.
  abbrev pub last_of : List XMessage → String → String
  last_of [] id = id
  last_of (msg ∷ msgs) id = last_of msgs msg.id

  abbrev last_id : List (List XMessage) → String → String
  last_id [] id = id
  last_id (msgs ∷ streams) id = last_id streams (last_of msgs id)

  -- What follows the read: no new message before the block timeout is no error.
  abbrev after_read : Cursor → Ret W (List (List XMessage)) → Ret W Cursor
  after_read at (ok streams s) =
      ok (record at { start_id = last_id streams at.start_id }) (dispatch_streams streams s)
  after_read at (failed e s) = if client.is_nil e then ok at s else failed e s
  after_read at (panicked v s) = panicked v s

  abbrev read_args : String → ReadArgs
  read_args start = record {
    group = sub.options.consumer_group;
    consumer = consumer;
    stream = sub.stream;
    start = start;
    count = sub.options.max_in_flight;
    block = sub.options.block_timeout;
  }

  -- The claimed messages are dispatched, then new ones are read.
  abbrev after_claim : Cursor → Ret W (List XMessage × String) → Ret W Cursor
  after_claim at (ok (claimed, next_start) s) =
      after_read (record at { claim_start = next_start })
        (client.read_group ctx (read_args ">") (dispatch_all claimed s))
  after_claim at (failed e s) = failed e s
  after_claim at (panicked v s) = panicked v s

  -- One turn of the loop.
  unfoldable pub cycle : Cursor → Call W Cursor
  unfolding dispatch_all dispatch_streams
  cycle at s =
      let o = sub.options in
      if o.consumer_group == ""
      then after_read at (client.read ctx (read_args at.start_id) s)
      else after_claim at (
          client.auto_claim ctx
            (record {
              stream = sub.stream;
              group = o.consumer_group;
              consumer = consumer;
              min_idle = o.pending_message_idle_timeout;
              start = at.claim_start;
              count = o.pending_message_batch_size;
            })
            s)

  -- `for ctx.Err() == nil { … }`
  abbrev pub while_live :
      Option Error → Run W → (Run W → Option (Ret W (Unit {0}))) → Option (Ret W (Unit {0}))
  while_live none s turn = turn s
  while_live (some e) s turn = some (ok tt s)

  abbrev pub then_turn :
      (Cursor → Run W → Option (Ret W (Unit {0}))) → Ret W Cursor → Option (Ret W (Unit {0}))
  then_turn next (ok at s) = next at s
  then_turn next (failed e s) = some (failed e s)
  then_turn next (panicked v s) = some (panicked v s)

  -- The loop, for at most so many turns: `none` if it has not returned by then.
  unfoldable pub loop : ℕ → Cursor → Run W → Option (Ret W (Unit {0}))
  unfolding cycle
  loop zero at s = none
  loop (suc turns) at s = while_live (err_of s ctx) s (λ t. then_turn (loop turns) (cycle at t))

  abbrev pub started_at : ℕ → Ret W String → Option (Ret W (Unit {0}))
  started_at turns (ok id s) = loop turns (record { start_id = id; claim_start = "0-0" }) s
  started_at turns (failed e s) = some (failed e s)
  started_at turns (panicked v s) = some (panicked v s)

  -- The end of Receive: it waits, and an error is dropped if ctx is done.
  abbrev pub unless_done : Option Error → Error → Run W → Ret W (Unit {0})
  unless_done none e s = failed e s
  unless_done (some done) e s = ok tt s

  abbrev pub waited : Ret W (Unit {0}) → Ret W (Unit {0})
  waited (ok a s) = ok a (wait s)
  waited (failed e s) = unless_done (err_of (wait s) ctx) e (wait s)
  waited (panicked v s) = panicked v s

  abbrev pub all_waited : Option (Ret W (Unit {0})) → Option (Ret W (Unit {0}))
  all_waited none = none
  all_waited (some r) = some (waited r)

  abbrev pub grouped : ℕ → Ret W (Unit {0}) → Option (Ret W (Unit {0}))
  grouped turns (ok a s) = all_waited (started_at turns (resolve_start_id client sub ctx s))
  grouped turns (failed e s) = some (failed e s)
  grouped turns (panicked v s) = some (panicked v s)

  unfoldable pub receive : ℕ → Run W → Option (Ret W (Unit {0}))
  unfolding create_consumer_group resolve_start_id
  receive turns s = grouped turns (create_consumer_group client sub ctx s)

-- The options of the dispatcher that Receive makes.
unfoldable pub dispatch_options : {W : Type 0} → RedisSubscriber W → DispatchOptions W
dispatch_options sub = record {
  max_in_flight = sub.options.max_in_flight;
  processing_timeout = sub.processing_timeout;
  on_ack_error = sub.options.on_ack_error;
  on_nack_error = none;
}
