-- ===== src/Loadtest.antt =====
-- core/loadtest/loadtest.go: the recorder of message IDs, and the comparisons of lists of IDs. A
-- section under the recorder's lock is one step.
pub mod Recording
pub mod Comparing
pub mod Drawing
use expedit.Prelude.{
  ℕ, String, Bool, true, false, Option, none, some, List, [], ◌∷◌, ◌++◌, Map, lookup, insert,
  length, if◌then◌else◌,
}
use expedit.Go.Value.{ℤ, pos}
use expedit.Go.Int.{◌+ℤ◌, ◌-ℤ◌}

pub record Recorder : Type 0 where
  pub ids : Map (List String)

unfoldable pub new_recorder : Recorder
new_recorder = record { ids = [] }

-- A map read gives the nil slice for a missing key.
abbrev pub or_empty : Option (List String) → List String
or_empty none = []
or_empty (some ids) = ids

unfoldable pub record_id : String → String → Recorder → Recorder
record_id key id r = record { ids = insert key (or_empty (lookup key r.ids) ++ id ∷ []) r.ids }

-- `IDs`
unfoldable pub recorded_ids : String → Recorder → List String
recorded_ids key r = or_empty (lookup key r.ids)

-- `Count`
unfoldable pub recorded_count : String → Recorder → ℕ
recorded_count key r = length (or_empty (lookup key r.ids))

to_set_from : Map Bool → List String → Map Bool
to_set_from set [] = set
to_set_from set (id ∷ ids) = to_set_from (insert id true set) ids

unfoldable pub to_set : List String → Map Bool
unfolding to_set_from
to_set ids = to_set_from [] ids

-- `seen[id]`: false for a missing key.
abbrev or_false : Option Bool → Bool
or_false none = false
or_false (some b) = b

unfoldable pub seen : String → Map Bool → Bool
seen id set = or_false (lookup id set)

missing_from : Map Bool → List String → List String → List String
missing_from set [] out = out
missing_from set (id ∷ ids) out = missing_from set ids (if seen id set then out else out ++ id ∷ [])

unfoldable pub missing : List String → List String → List String
unfolding missing_from to_set seen
missing expected actual = missing_from (to_set actual) expected []

duplicates_from : Map Bool → List String → List String → List String
duplicates_from set [] out = out
duplicates_from set (id ∷ ids) out =
    duplicates_from set ids (if seen id set then out ++ id ∷ [] else out)

unfoldable pub duplicates : List String → List String → List String
unfolding duplicates_from to_set seen
duplicates a b = duplicates_from (to_set a) b []

-- `int_n` is rand.IntN, which panics, as `none`, for a number that is not positive.
abbrev pub drawn : ℤ → Option ℤ → Option ℤ
drawn lower none = none
drawn lower (some r) = some (r +ℤ lower)

unfoldable pub random_int : (ℤ → Option ℤ) → ℤ → ℤ → Option ℤ
unfolding ◌+ℤ◌ ◌-ℤ◌
random_int int_n lower higher = drawn lower (int_n (higher -ℤ lower +ℤ pos 1))
