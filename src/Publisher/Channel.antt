-- ===== src/Publisher/Channel.antt =====
-- core/publisher/channel.go: ChannelPublisher, over a Go channel of messages.
use expedit.Prelude.{
  ℕ, String, Bool, true, Option, none, some, List, [], ◌∷◌, ◌++◌, length, ltb, if◌then◌else◌,
}
use expedit.Message.{Message}

-- A channel: its capacity, what is in it, and whether it is closed. (With capacity 0 a send is handed
-- to a receiver that waits: its place counts as one of capacity.)
pub record Chan : Type 0 where
  pub capacity : ℕ
  pub buffer : List Message
  pub closed : Bool

-- `blocked`: the goroutine waits, and nothing has happened yet.
pub data Sent : Type 0 where
  sent : Chan → Sent
  blocked : Sent
  panicked : Sent

unfoldable pub publish : Message → Chan → Sent
publish msg c =
    if c.closed
    then panicked
    else if ltb (length c.buffer) c.capacity
    then sent (record c { buffer = c.buffer ++ msg ∷ [] })
    else blocked

-- A nil message has no ID.
unfoldable pub get_message_id : Option Message → String
get_message_id none = ""
get_message_id (some m) = m.id

-- Closing a closed channel panics (`none`).
unfoldable pub close : Chan → Option Chan
close c = if c.closed then none else some (record c { closed = true })
