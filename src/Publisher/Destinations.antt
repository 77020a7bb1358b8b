-- ===== src/Publisher/Destinations.antt =====
-- core/publisher/publisher.go: MessagePublisher, one internal publisher for each destination.
pub mod Caching
pub mod Closing
pub mod Concurrent
use expedit.Prelude.{
  String, Bool, true, false, Option, none, some, List, [], ◌∷◌, ◌++◌, ◌==◌, if◌then◌else◌, Map,
  lookup, insert,
}
use expedit.Go.Value.{Error, sentinel, errors_join}
use expedit.Go.Context.{Context}
use expedit.Handler.{Run, Ret, ok, failed, panicked, Call, Handler}

abbrev pub err_closed : Error
err_closed = sentinel "publisher is closed"

-- Destination is a string; RoutingFunc and the option functions may change the message.
abbrev pub Destination : Type 0
Destination = String

abbrev pub RoutingFunc : Type 0 → Type 0
RoutingFunc W = Call W Destination

-- ConstantDestination, ConstantBoolMsgFn, ConstantStringMsgFn and ConstantIntMsgFn.
unfoldable pub constant_fn : {W A : Type 0} → A → Call W A
constant_fn a s = ok a s

-- MessagesPublisherImpl[T]. Publishing may change the implementation's message, so it returns it.
pub record Impl (W T : Type 0) : Type 0 where
  pub close : Handler W
  pub publish : Context → T → Call W T
  pub get_message_id : T → String

-- The exported fields of MessagePublisher[T], set once.
pub record Config (W T : Type 0) : Type 0 where
  pub routing_func : RoutingFunc W
  pub message_marshaller : Call W T
  pub get_destination_publisher : Destination → Call W (Impl W T)

-- The fields under the lock. A nil map reads as the empty one, and is replaced before a write.
pub record Destinations (W T : Type 0) : Type 0 where
  pub publishers : Map (Impl W T)
  pub closed : Bool

unfoldable pub no_destinations : {W T : Type 0} → Destinations W T
no_destinations = record { publishers = []; closed = false }

-- What a look at the fields under a lock says.
pub data Found {ℓ} (P : Type ℓ) : Type ℓ where
  refused : Found P
  cached : P → Found P
  missing : Found P

abbrev pub cached_or_missing {ℓ} : {P : Type ℓ} → Option P → Found P
cached_or_missing none = missing
cached_or_missing (some p) = cached p

-- `closed` and `publishers[dest]`: the section under the read lock, and the check repeated under
-- the write lock.
unfoldable pub look {ℓ} : {P : Type ℓ} → Bool → Map P → Destination → Found P
look closed publishers dest = if closed then refused else cached_or_missing (lookup dest publishers)

-- A publisher that was created is stored.
abbrev store :
    {W T : Type 0}
    → Destination
    → Destinations W T
    → Ret W (Impl W T)
    → Destinations W T × Ret W (Impl W T)
store dest d (ok impl s) = (record d { publishers = insert dest impl d.publishers }, ok impl s)
store dest d (failed e s) = (d, failed e s)
store dest d (panicked v s) = (d, panicked v s)

abbrev or_else :
    {W T : Type 0}
    → Found (Impl W T)
    → Destinations W T
    → Run W
    → Destinations W T × Ret W (Impl W T)
    → Destinations W T × Ret W (Impl W T)
or_else refused d s r = (d, failed err_closed s)
or_else (cached impl) d s r = (d, ok impl s)
or_else missing d s r = r

-- The section under the write lock.
unfoldable pub create :
    {W T : Type 0}
    → Config W T
    → Destination
    → Destinations W T
    → Run W
    → Destinations W T × Ret W (Impl W T)
create c dest d s =
    or_else (look d.closed d.publishers dest) d s
      (store dest d (c.get_destination_publisher dest s))

unfoldable pub get_publisher :
    {W T : Type 0}
    → Config W T
    → Destination
    → Destinations W T
    → Run W
    → Destinations W T × Ret W (Impl W T)
get_publisher c dest d s = or_else (look d.closed d.publishers dest) d s (create c dest d s)

-- `if id := pub.GetMessageID(msgImpl); id != "" { message.ID = id }`
abbrev pub set_id : {W : Type 0} → String → Run W → Run W
set_id id s = if id == "" then s else record s { message = record (s.message) { id = id } }

-- What follows `pub.Publish`.
abbrev pub confirmed : {W T : Type 0} → Impl W T → Ret W T → Ret W (Unit {0})
confirmed impl (ok sent s) = ok tt (set_id (impl.get_message_id sent) s)
confirmed impl (failed e s) = failed e s
confirmed impl (panicked v s) = panicked v s

-- What follows `MessageMarshaller`.
abbrev pub handed : {W T : Type 0} → Impl W T → Ret W T → Ret W (Unit {0})
handed impl (ok msg s) = confirmed impl (impl.publish s.message.ctx msg s)
handed impl (failed e s) = failed e s
handed impl (panicked v s) = panicked v s

-- What follows `getPublisher` in `Publish`.
unfoldable pub deliver : {W T : Type 0} → Config W T → Impl W T → Handler W
deliver c impl s = handed impl (c.message_marshaller s)

abbrev deliver_to :
    {W T : Type 0}
    → Config W T
    → Destinations W T × Ret W (Impl W T)
    → Destinations W T × Ret W (Unit {0})
deliver_to c (d, ok impl s) = (d, deliver c impl s)
deliver_to c (d, failed e s) = (d, failed e s)
deliver_to c (d, panicked v s) = (d, panicked v s)

-- What follows the routing function.
routed :
    {W T : Type 0}
    → Config W T
    → Destinations W T
    → Ret W Destination
    → Destinations W T × Ret W (Unit {0})
routed c d (ok dest s) = deliver_to c (get_publisher c dest d s)
routed c d (failed e s) = (d, failed e s)
routed c d (panicked v s) = (d, panicked v s)

unfoldable pub publish :
    {W T : Type 0} → Config W T → Destinations W T → Run W → Destinations W T × Ret W (Unit {0})
unfolding routed get_publisher deliver
publish c d s = routed c d (c.routing_func s)

-- The loop of `Close`: every publisher is closed, and the errors are collected. A panic of a
-- `Close` ends the loop.
unfoldable pub close_all : {W T : Type 0} → Map (Impl W T) → List Error → Call W (List Error)
close_all [] errs s = ok errs s
close_all ((dest, impl) ∷ rest) errs s = elim (impl.close s) [
  | ok a s' ↦ close_all rest errs s'
  | failed e s' ↦ close_all rest (errs ++ e ∷ []) s'
  | panicked v s' ↦ panicked v s'
]

abbrev return_error : {W : Type 0} → Option Error → Handler W
return_error none s = ok tt s
return_error (some e) s = failed e s

-- The end of `Close`: the map is dropped, unless a panic came before.
abbrev finish :
    {W T : Type 0} → Destinations W T → Ret W (List Error) → Destinations W T × Ret W (Unit {0})
finish d (ok errs s) =
    (record { publishers = []; closed = true }, return_error (errors_join errs) s)
finish d (failed e s) = (record { publishers = []; closed = true }, failed e s)
finish d (panicked v s) = (record d { closed = true }, panicked v s)

unfoldable pub close :
    {W T : Type 0} → Destinations W T → Run W → Destinations W T × Ret W (Unit {0})
unfolding close_all
close d s = if d.closed then (d, ok tt s) else finish d (close_all d.publishers [] s)
