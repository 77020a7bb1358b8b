-- ===== src/Tests/Redis.antt =====
-- Redis publishers and subscribers at concrete inputs.
use expedit.Prelude.{
  ◌+◌, ◌⊎◌, ℕ, String, Bool, true, false, Option, none, some, [], ◌∷◌, ◌≡◌, refl, sym, subst, ◌==◌,
  if◌then◌else◌, eq_iff, Map, lookup, has_prefix, collect, insert, arith,
}
use expedit.Go.Value.{new, pos, Value, nil, str}
use expedit.Go.Context.{background}
use expedit.Redis.Subscriber.Receiving.{Client, create_consumer_group, receive, loop, cycle}
use expedit.Redis.Subscriber.Receiving.Terminating.{Ticks, receive_returns}
use expedit.Redis.Subscriber.Receiving.Failing.{receive_fails}
use expedit.Handler.{Ret, failed, err_of, Run, ok}
use expedit.Redis.Values.{
  MessageWrapper, metadata_with_prefix, prefix_metadata_extractor, non_prefix_payload_extractor,
}
use expedit.Redis.Publisher.{
  PublisherOptions, XAddArgs, with_metadata_marshaller, marshal, write_all,
}
use expedit.Redis.Entries.{text_value}
use expedit.Redis.RoundTrip.{IsTextual, published_arrives}
use expedit.Redis.Subscriber.{SubscriberOptions, RedisSubscriber, seconds, default_options}

abbrev options : SubscriberOptions ℕ
options = record default_options {
  consumer_group = "billing";
  processing_timeout = some (seconds 60);
}

abbrev subscriber : RedisSubscriber ℕ
subscriber = record { stream = "orders"; options = options; processing_timeout = seconds 60 }

abbrev metadata : Map Value
metadata = ("user", str "ann") ∷ []

abbrev payload : Map Value
payload = ("body", str "hi") ∷ []

abbrev state : Run ℕ
state = record {
  message = record { id = "1"; metadata = some metadata; payload = nil; ctx = background };
  world = 0;
  now = 0;
  next_scope = 0;
  cancelled = [];
}

abbrev publisher_options : PublisherOptions ℕ
publisher_options = record {
  id_generator = none;
  maxlen = pos 100;
  approx = true;
  metadata_marshaller = none;
}

abbrev added : Map Value
added = ("m-user", str "ann") ∷ ("body", str "hi") ∷ []

abbrev args : XAddArgs
args = record { stream = ""; values = added; max_len = pos 100; approx = true; id = "1" }

abbrev wrapper : MessageWrapper
wrapper = record {
  stream = "orders";
  consumer_group = "billing";
  msg = record { id = "1-1"; values = added };
}

IsTextual-one : (name text : String) → IsTextual ((name, str text) ∷ [])
unfolding lookup
IsTextual-one name text key = tested (name == key)
  where
    tested :
        (b : Bool) → (o : Option String) × ((if b then some (str text) else none) ≡ text_value o)
    tested true = (some text, refl)
    tested false = (none, refl)

body_free : (k : String) → has_prefix k "m-" ≡ true → lookup k payload ≡ none
unfolding has_prefix lookup
body_free k h = tested ("body" == k) refl
  where
    tested : (b : Bool) → ("body" == k) ≡ b → (if b then some (str "hi") else none) ≡ none
    tested true e =
        let h' : has_prefix "body" "m-" ≡ true =
          subst (λ s. has_prefix s "m-" ≡ true) (sym ((eq_iff "body" k).0 e)) h in
        cc
    tested false e = refl

published_arrives_example :
    (lookup "user" (prefix_metadata_extractor "m-" wrapper) ≡ some (str "ann"))
    × (lookup "user" (non_prefix_payload_extractor "m-" wrapper) ≡ none)
unfolding lookup marshal with_metadata_marshaller metadata_with_prefix write_all collect insert
published_arrives_example =
    published_arrives "m-" publisher_options (λ s. ok payload s) state state state payload args
      wrapper "user" refl refl (refl, tt) (IsTextual-one "user" "ann") (refl, tt)
      (IsTextual-one "body" "hi") body_free
      (record { text = λ k t e. e; absent = λ k e. e; once = (refl, (refl, tt)) })

-- A client whose reads fail.
abbrev broken : Client ℕ
broken = record {
  group_create = λ ctx stream group start s. ok tt s;
  group_create_mk_stream = λ ctx stream group start s. ok tt s;
  auto_claim = λ ctx claim s. ok ([], "0-0") s;
  read = λ ctx read s. failed (new "boom") s;
  read_group = λ ctx read s. failed (new "boom") s;
  last_generated_id = λ ctx stream s. ok "5-0" s;
  ack = λ ctx stream group id s. ok tt s;
  is_nil = λ e. false;
  mentions = λ e text. false;
}

receive_fails_example :
    (create_consumer_group broken subscriber background state ≡ failed (new "boom") state)
    ⊎ (err_of state background ≡ none)
unfolding receive loop cycle
receive_fails_example =
    receive_fails broken subscriber "c" (λ d s. s) (λ s. s) background 3 state state (new "boom")
      refl

-- A client whose reads find nothing for the time that they may block.
abbrev idle : Client ℕ
idle = record broken {
  auto_claim = λ ctx claim s. ok ([], "0-0") s;
  read = λ ctx read s. failed (new "nil") (record s { now = s.now + 5 });
  read_group = λ ctx read s. failed (new "nil") (record s { now = s.now + 5 });
  is_nil = λ e. true;
}

idle-Ticks : Ticks idle (λ d s. s)
idle-Ticks = record {
  by_read = λ c a s. omega arith;
  by_read_group = λ c a s. omega arith;
  by_claim = λ c a s. omega arith;
  by_dispatch = λ d s. omega arith;
}

receive_returns_example :
    (r : Ret ℕ (Unit {0})) × (receive idle subscriber "c"
        (λ d s. s)
        (λ s. s)
        (record background { deadline = some 7 })
        8
        state
      ≡ some r)
receive_returns_example =
    receive_returns idle subscriber "c" (λ d s. s) (λ s. s)
      (record background { deadline = some 7 }) idle-Ticks 7 state refl
