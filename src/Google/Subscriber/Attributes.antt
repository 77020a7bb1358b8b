-- ===== src/Google/Subscriber/Attributes.antt =====
-- From the metadata of a message to the attributes of a topic, and back.
use expedit.Prelude.{
  ℕ, String, Bool, true, false, Option, none, some, ◌≡◌, refl, ap, ◌∙◌, if◌then◌else◌, Map, IsMap,
  lookup, lookup-collect_kept,
}
use expedit.Go.Value.{ℤ, Value, nil, str, bytes, int, boolean, err, dict, other}
use expedit.Go.Context.{Context}
use expedit.Go.Number.{parse_int, parse_bool, format_int}
use expedit.Go.Number.RoundTrip.{IsInt64, parse_int-format_int}
use expedit.Message.{Message, entries}
use expedit.Google.Publisher.{metadata_as_attributes}
use expedit.Google.Subscriber.{
  GoogleSubscriber, Received, parse_as_primitive_type, or_boolean, or_float, or_text, to_message,
}

-- What fmt documents of `%v`.
pub record Prints (sprint : Value → String) : Type 0 where
  pub text : (s : String) → sprint (str s) ≡ s
  pub number : (i : ℤ) → sprint (int i) ≡ format_int i
  pub truth : sprint (boolean true) ≡ "true"
  pub falsity : sprint (boolean false) ≡ "false"

-- The values that come back as they were.
abbrev pub Survives : (String → Option ℕ) → Bool → Value → Type 0
Survives parse_float true (str s) =
    (parse_int s ≡ none) × ((parse_bool s ≡ none) × (parse_float s ≡ none))
Survives parse_float true (int i) = IsInt64 i
Survives parse_float true (boolean b) = Unit
Survives parse_float false (str s) = Unit
Survives parse_float parse v = ⊥

abbrev read : (String → Option ℕ) → Bool → String → Value
read parse_float parse v = if parse then parse_as_primitive_type parse_float v else str v

-- The topic keeps each attribute, once.
pub record IsDelivered {W : Type 0} (sent : Map String) (m : Received W) : Type 0 where
  pub each : (key : String) → lookup key m.attributes ≡ lookup key sent
  pub once : IsMap m.attributes

-- How each of them is read.
module _ (parse_float : String → Option ℕ) where
  parse_text :
      (s : String)
      → Survives parse_float true (str s)
      → parse_as_primitive_type parse_float s ≡ str s
  unfolding parse_as_primitive_type
  parse_text s (i, (b, f)) =
      ap (or_boolean parse_float s) i ∙ (ap (or_float parse_float s) b ∙ ap (or_text s) f)

  parse_number : (i : ℤ) → IsInt64 i → parse_as_primitive_type parse_float (format_int i) ≡ int i
  unfolding parse_as_primitive_type
  parse_number i h = ap (or_boolean parse_float (format_int i)) (parse_int-format_int i h)

  parse_truths :
      (parse_as_primitive_type parse_float "true" ≡ boolean true)
      × (parse_as_primitive_type parse_float "false" ≡ boolean false)
  unfolding parse_as_primitive_type parse_int parse_bool
  parse_truths = (refl, refl)

module _ (sprint : Value → String) (parse_float : String → Option ℕ) (p : Prints sprint) where
  read-sprint :
      (parse : Bool) (v : Value)
      → Survives parse_float parse v
      → read parse_float parse (sprint v) ≡ v
  read-sprint true (str s) h =
      ap (parse_as_primitive_type parse_float) (p.text s) ∙ parse_text parse_float s h
  read-sprint true (int i) h =
      ap (parse_as_primitive_type parse_float) (p.number i) ∙ parse_number parse_float i h
  read-sprint true (boolean true) h =
      ap (parse_as_primitive_type parse_float) p.truth ∙ (parse_truths parse_float).0
  read-sprint true (boolean false) h =
      ap (parse_as_primitive_type parse_float) p.falsity ∙ (parse_truths parse_float).1
  read-sprint true nil h = elim h [ ]
  read-sprint true (bytes b) h = elim h [ ]
  read-sprint true (err e) h = elim h [ ]
  read-sprint true (dict d) h = elim h [ ]
  read-sprint true (other t n) h = elim h [ ]
  read-sprint false (str s) h = ap str (p.text s)
  read-sprint false nil h = elim h [ ]
  read-sprint false (bytes b) h = elim h [ ]
  read-sprint false (int i) h = elim h [ ]
  read-sprint false (boolean b) h = elim h [ ]
  read-sprint false (err e) h = elim h [ ]
  read-sprint false (dict d) h = elim h [ ]
  read-sprint false (other t n) h = elim h [ ]

  -- A message whose metadata a Google publisher sends as attributes, without a provider of its own,
  -- and which a Google subscriber receives: each text of the metadata is there again; with
  -- WithParseAttributes each int64 and each boolean is there again with its type, and each text that is
  -- no integer, no boolean and no float.
  pub attributes_arrive :
      {Settings W : Type 0} (sub : GoogleSubscriber Settings W) (ctx : Context) (sent : Message)
      (m : Received W) (key : String) (v : Value)
      → IsMap (entries sent.metadata)
      → IsDelivered (metadata_as_attributes sprint sent) m
      → lookup key (entries sent.metadata) ≡ some v
      → Survives parse_float sub.options.parse_attributes v
      → lookup key (entries (to_message parse_float sub ctx m).metadata) ≡ some v
  unfolding to_message metadata_as_attributes lookup
  attributes_arrive sub ctx sent m key v once d at h =
      let parse = sub.options.parse_attributes in
      let written = d.each key ∙ lookup-collect_kept sprint key (entries sent.metadata) once at in
      lookup-collect_kept (read parse_float parse) key m.attributes d.once written
      ∙ ap some (read-sprint parse v h)
