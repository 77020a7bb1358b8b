-- ===== src/Amqp/Testrabbit.antt =====
-- amqp/testrabbit/local.go: queues and exchanges for tests against a broker. What the code uses of a
-- ReconnectingChannel is a record of calls on the broker's world; a call may fail and takes time. A
-- function returns a value or an error, or it panics. The random part of the names, which shortuuid
-- makes, is an argument of the functions that create something.
pub mod Waiting
pub mod Exchange
pub mod Direct
pub mod Routing
pub mod Fanout
pub mod Topic
pub mod HeaderMatching
pub mod Requests
use Prim.Native.String.{◌++◌ as ◌<>◌}
use expedit.Prelude.{
  ℕ, ◌+◌, ◌*◌, String, Bool, true, false, Option, none, some, List, [], ◌∷◌, ◌++◌, ◌⊎◌, inl, inr,
  Map,
}
use expedit.Go.Value.{Value, Error, new}
use expedit.Go.Context.{Context}
use expedit.Amqp.Headers.{Table}
use expedit.Amqp.Publisher.{Publishing}

-- What is printed: a warning by what it is about, and the error that it shows.
pub data Warning : Type 0 where
  queue_not_deleted : String → Error → Warning
  routed_queue_not_deleted : String → String → Error → Warning  -- the queue, and its key
  exchange_not_deleted : String → Error → Warning
  not_published : String → Error → Warning
  not_ready : Error → Warning

-- `now` is in nanoseconds.
pub record Env (W : Type 0) : Type 0 where
  pub world : W
  pub now : ℕ
  pub warnings : List Warning

pub data Outcome (W A : Type 0) : Type 0 where
  done : A → Env W → Outcome W A
  failing : Error → Env W → Outcome W A
  panicking : Error → Env W → Outcome W A

abbrev pub Action : Type 0 → Type 0 → Type 0
Action W A = Env W → Outcome W A

-- The state that an action leaves.
abbrev pub left : {W A : Type 0} → Outcome W A → Env W
left (done a e) = e
left (failing err e) = e
left (panicking err e) = e

abbrev pub pure : {W A : Type 0} → A → Action W A
pure a e = done a e

abbrev pub and_then : {W A B : Type 0} → Outcome W A → (A → Action W B) → Outcome W B
and_then (done a e) f = f a e
and_then (failing err e) f = failing err e
and_then (panicking err e) f = panicking err e

infixl 5 ◌>>=◌ ◌>>◌
abbrev pub ◌>>=◌ : {W A B : Type 0} → Action W A → (A → Action W B) → Action W B
◌>>=◌ m f e = and_then (m e) f

abbrev pub ◌>>◌ : {W A B : Type 0} → Action W A → Action W B → Action W B
m >> k = m >>= λ _. k

-- `if err != nil { panic(…) }`
abbrev pub panic_on : {W A : Type 0} → (Error → Error) → Outcome W A → Outcome W A
panic_on f (done a e) = done a e
panic_on f (failing err e) = panicking (f err) e
panic_on f (panicking err e) = panicking err e

abbrev pub or_panic_with : {W A : Type 0} → (Error → Error) → Action W A → Action W A
or_panic_with f m e = panic_on f (m e)

abbrev pub or_panic : {W A : Type 0} → Action W A → Action W A
or_panic m = or_panic_with (λ err. err) m

-- `if err != nil { fmt.Printf("Warning: …") }`, where a result is not used.
abbrev pub warn : {W : Type 0} → Warning → Env W → Env W
warn w e = record e { warnings = e.warnings ++ w ∷ [] }

abbrev pub warn_on : {W A : Type 0} → (Error → Warning) → Outcome W A → Outcome W (Unit {0})
warn_on f (done a e) = done tt e
warn_on f (failing err e) = done tt (warn (f err) e)
warn_on f (panicking err e) = panicking err e

abbrev pub or_warn : {W A : Type 0} → (Error → Warning) → Action W A → Action W (Unit {0})
or_warn f m e = warn_on f (m e)

-- time.Sleep
abbrev pub millisecond : ℕ
millisecond = 1000000

abbrev pub two_seconds : ℕ
two_seconds = 2000 * millisecond

abbrev pub pass : {W : Type 0} → ℕ → Env W → Env W
pass d e = record e { now = e.now + d }

-- What a call of the channel gives at a time: its result, the broker behind it, and its duration.
pub record Reply (W A : Type 0) : Type 0 where
  pub result : Error ⊎ A
  pub world : W
  pub took : ℕ

abbrev pub Op : Type 0 → Type 0 → Type 0
Op W A = ℕ → W → Reply W A

abbrev pub resulting : {W A : Type 0} → Error ⊎ A → Env W → Outcome W A
resulting (inl err) e = failing err e
resulting (inr a) e = done a e

abbrev pub answered : {W A : Type 0} → Reply W A → Env W → Outcome W A
answered r e = resulting r.result (record e { world = r.world; now = e.now + r.took })

abbrev pub call : {W A : Type 0} → Op W A → Action W A
call op e = answered (op e.now e.world) e

-- The Boolean arguments stand in the library's order. `D` is the type of a channel of deliveries. A
-- declaration gives the name of the queue, and its arguments are nil; a deletion gives how many
-- messages the queue held.
pub record Channel (W D : Type 0) : Type 0 where
  pub queue_declare : String → Bool → Bool → Bool → Bool → Op W String
  pub queue_declare_passive : String → Bool → Bool → Bool → Bool → Op W String
  pub queue_bind : String → String → String → Bool → Option Table → Op W (Unit {0})
  pub queue_delete : String → Bool → Bool → Bool → Op W ℕ
  pub exchange_declare : String → String → Bool → Bool → Bool → Bool → Op W (Unit {0})
  pub exchange_delete : String → Bool → Bool → Op W (Unit {0})
  pub publish : String → String → Bool → Bool → Publishing → Op W (Unit {0})
  pub consume : Context → String → String → Bool → Bool → Bool → Bool → Op W D

-- `fmt.Sprintf("%s_%s", …)`
abbrev pub joined : String → String → String
joined a b = a <> ("_" <> b)

abbrev pub joined3 : String → String → String → String
joined3 a b c = a <> ("_" <> (b <> ("_" <> c)))

-- The publishing that each PublishBytes makes; amqp091's Persistent is 2.
abbrev pub text_publishing : List ℕ → Table → Publishing
text_publishing body attrs = record {
  content_type = "text/plain";
  priority = 0;
  delivery_mode = 2;
  body = body;
  headers = attrs;
  message_id = "";
}
