-- ===== src/Loadtest/Comparing.antt =====
-- Missing and Duplicates.
use expedit.Prelude.{
  String, ◌≡◌, refl, ap, ◌∙◌, sym, List, [], ◌∷◌, ◌++◌, Bool, true, false, ◌||◌, not, ◌==◌,
  if◌then◌else◌, Map, lookup, insert, lookup-insert, arith, append_assoc, append-nil, Bool-cases,
  inl, inr,
}
use expedit.Loadtest.{to_set_from, to_set, seen, missing_from, missing, duplicates_from, duplicates}

abbrev pub elem : String → List String → Bool
elem id [] = false
elem id (j ∷ ids) = (j == id) || elem id ids

abbrev pub keep : (String → Bool) → List String → List String
keep p [] = []
keep p (id ∷ ids) = if p id then id ∷ keep p ids else keep p ids

seen-insert :
    (id k : String) (set : Map Bool) → seen id (insert k true set) ≡ ((k == id) || seen id set)
unfolding seen
seen-insert id k set = ground (arith, lookup-insert k id true set)

seen-to_set_from :
    (id : String) (set : Map Bool) (ids : List String)
    → seen id (to_set_from set ids) ≡ (seen id set || elem id ids)
unfolding to_set_from
seen-to_set_from id set [] = ground arith
seen-to_set_from id set (k ∷ ids) =
    ground (arith, seen-to_set_from id (insert k true set) ids, seen-insert id k set)

seen-to_set : (id : String) (ids : List String) → seen id (to_set ids) ≡ elem id ids
unfolding to_set seen lookup
seen-to_set id ids = seen-to_set_from id [] ids

missing_from_lem :
    (set : Map Bool) (ids out : List String)
    → missing_from set ids out ≡ out ++ keep (λ id. not (seen id set)) ids
unfolding missing_from
missing_from_lem set [] out = sym (append-nil out)
missing_from_lem set (id ∷ ids) out = elim (Bool-cases (seen id set)) [
  | inl e ↦ rw e (missing_from_lem set ids out)
  | inr e ↦ rw e (missing_from_lem set ids (out ++ id ∷ []) ∙ append_assoc out (id ∷ []) _)
]

duplicates_from_lem :
    (set : Map Bool) (ids out : List String)
    → duplicates_from set ids out ≡ out ++ keep (λ id. seen id set) ids
unfolding duplicates_from
duplicates_from_lem set [] out = sym (append-nil out)
duplicates_from_lem set (id ∷ ids) out = elim (Bool-cases (seen id set)) [
  | inl e ↦ rw e (duplicates_from_lem set ids (out ++ id ∷ []) ∙ append_assoc out (id ∷ []) _)
  | inr e ↦ rw e (duplicates_from_lem set ids out)
]

keep-ext :
    (p q : String → Bool) (ids : List String)
    → ((id : String) → p id ≡ q id)
    → keep p ids ≡ keep q ids
keep-ext p q [] h = refl
keep-ext p q (id ∷ ids) h = ground (arith, h id, keep-ext p q ids h)

-- Missing returns the expected IDs that are not among the actual ones, and Duplicates those of its
-- second list that are among the first, both in order and as often as they occur.
pub missing-duplicates :
    (expected actual : List String)
    → (missing expected actual ≡ keep (λ id. not (elem id actual)) expected)
      × (duplicates actual expected ≡ keep (λ id. elem id actual) expected)
unfolding missing duplicates
missing-duplicates expected actual = (
  missing_from_lem (to_set actual) expected []
      ∙ keep-ext _ _ expected (λ id. ap not (seen-to_set id actual)),
  duplicates_from_lem (to_set actual) expected []
      ∙ keep-ext _ _ expected (λ id. seen-to_set id actual),
)
