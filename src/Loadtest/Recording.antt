-- ===== src/Loadtest/Recording.antt =====
-- What a Recorder has recorded.
use expedit.Prelude.{
  String, ◌≡◌, refl, ap, ◌∙◌, sym, List, [], ◌∷◌, ◌++◌, Bool, true, false, ◌==◌, if◌then◌else◌,
  lookup, lookup-insert, eq_iff, arith, length, append_assoc, append-nil,
}
use expedit.Loadtest.{Recorder, new_recorder, record_id, recorded_ids, recorded_count, or_empty}

-- The calls of Record, the first first.
abbrev pub record_all : List (String × String) → Recorder → Recorder
record_all [] r = r
record_all ((key, id) ∷ calls) r = record_all calls (record_id key id r)

-- The IDs that were recorded for a key.
abbrev pub ids_of : String → List (String × String) → List String
ids_of key [] = []
ids_of key ((k, id) ∷ calls) = if k == key then id ∷ ids_of key calls else ids_of key calls

record_id-ids :
    (key k id : String) (r : Recorder)
    → recorded_ids key (record_id k id r)
      ≡ (if k == key then recorded_ids key r ++ id ∷ [] else recorded_ids key r)
unfolding recorded_ids record_id
record_id-ids key k id r =
    ground (arith, lookup-insert k key (or_empty (lookup k r.ids) ++ id ∷ []) r.ids, eq_iff k key)

record_all-ids :
    (key : String) (calls : List (String × String)) (r : Recorder)
    → recorded_ids key (record_all calls r) ≡ recorded_ids key r ++ ids_of key calls
record_all-ids key [] r = sym (append-nil _)
record_all-ids key ((k, id) ∷ calls) r =
    record_all-ids key calls (record_id k id r)
    ∙ ap (λ l. l ++ ids_of key calls) (record_id-ids key k id r)
    ∙ both (k == key)
  where
    both :
        (b : Bool)
        → (if b then recorded_ids key r ++ id ∷ [] else recorded_ids key r) ++ ids_of key calls
          ≡ recorded_ids key r ++ (if b then id ∷ ids_of key calls else ids_of key calls)
    both true = append_assoc (recorded_ids key r) (id ∷ []) (ids_of key calls)
    both false = refl

-- A new Recorder returns for each key the IDs that were recorded for it, in recording order, and as
-- their count how many they are, whatever else was recorded in between.
pub record_all-recorded :
    (key : String) (calls : List (String × String))
    → (recorded_ids key (record_all calls new_recorder) ≡ ids_of key calls)
      × (recorded_count key (record_all calls new_recorder) ≡ length (ids_of key calls))
unfolding recorded_count recorded_ids new_recorder lookup
record_all-recorded key calls =
    let same = record_all-ids key calls new_recorder in (same, ap length same)
