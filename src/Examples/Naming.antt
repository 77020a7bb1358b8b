-- ===== src/Examples/Naming.antt =====
-- What AddStructNameToMetadata hands on.
use expedit.Prelude.{String, Option, some, Map, insert, ◌≡◌, refl, ap, ◌∙◌}
use expedit.Go.Value.{Value, str}
use expedit.Message.{with_metadata}
use expedit.Handler.{Run, Handler}
use expedit.Examples.{TypeInfo, get_type_name, named, add_struct_name_to_metadata}

-- The message with the name of its event.
abbrev pub stamped : {W : Type 0} → String → Map Value → Run W → Run W
stamped name m s = record s {
  message = record (s.message) { metadata = some (insert "event_type" (str name) m) };
}

module _ {W : Type 0} where
  pub add_struct_name_to_metadata-stamped :
      (type_of : Value → Option TypeInfo) (next : Handler W) (s : Run W) (name : String)
      (m : Map Value)
      → get_type_name (type_of s.message.payload) ≡ some name
      → s.message.metadata ≡ some m
      → add_struct_name_to_metadata type_of next s ≡ next (stamped name m s)
  unfolding add_struct_name_to_metadata with_metadata
  add_struct_name_to_metadata-stamped type_of next s name m e h =
      ap (λ o. named next o s) e ∙ rw h refl
