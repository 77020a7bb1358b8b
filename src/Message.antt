-- ===== src/Message.antt =====
-- core/message/message.go. A method that changes the message returns the new record.
pub mod Laws
use expedit.Prelude.{
  String, Bool, true, false, ◌&&◌, Option, none, some, [], ◌∷◌, ◌=?◌, ◌==◌, if◌then◌else◌, Map,
  length, lookup, insert,
}
use expedit.Go.Value.{Value, deep_equal}
use expedit.Go.Context.{Context}

-- `Metadata`: a map, or nil (`none`), which reads as the empty map.
abbrev pub Metadata : Type 0
Metadata = Option (Map Value)

pub record Message : Type 0 where
  pub id : String
  pub metadata : Metadata
  pub payload : Value
  pub ctx : Context

abbrev pub entries : Metadata → Map Value
entries none = []
entries (some m) = m

unfoldable pub new_message : Context → Value → Message
new_message ctx payload = record { id = ""; metadata = some []; payload = payload; ctx = ctx }

-- A write to a nil map panics (`none`).
abbrev write : Metadata → String → Value → Option Metadata
write none key value = none
write (some m) key value = some (some (insert key value m))

abbrev with_entries : Message → Option Metadata → Option Message
with_entries m none = none
with_entries m (some md) = some (record m { metadata = md })

unfoldable pub with_metadata : Message → String → Value → Option Message
with_metadata m key value = with_entries m (write m.metadata key value)

unfoldable pub set_context : Message → Context → Message
set_context m ctx = record m { ctx = ctx }

-- The copy has a map of its own; a value of this model is never shared, so that is a plain copy.
unfoldable pub copy : Message → Message
unfolding new_message
copy m = record (new_message m.ctx m.payload) { id = m.id; metadata = m.metadata }

-- `!ok || !reflect.DeepEqual(value, toCompareValue)`, negated.
abbrev found_equal : Value → Option Value → Bool
found_equal value none = false
found_equal value (some found) = deep_equal value found

-- The loop of `Equals` over the receiver's metadata.
entries_equal : Map Value → Map Value → Bool
entries_equal [] other = true
entries_equal ((key, value) ∷ rest) other =
    found_equal value (lookup key other) && entries_equal rest other

pub equals : Message → Message → Bool
unfolding entries_equal
equals m other =
    if m.id == other.id
    then if length (entries m.metadata) =? length (entries other.metadata)
      then if entries_equal (entries m.metadata) (entries other.metadata)
        then deep_equal m.payload other.payload
        else false
      else false
    else false
