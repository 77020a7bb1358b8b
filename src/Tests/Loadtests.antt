-- ===== src/Tests/Loadtests.antt =====
-- The load test helpers at concrete inputs.
use expedit.Prelude.{
  ◌≡◌, refl, [], ◌∷◌, insert, lookup, Option, none, some, ◌<◌, ◌≤◌, ◌^◌, ◌⊎◌, ◌=?◌, if◌then◌else◌,
  arith,
}
use expedit.Go.Value.{ℤ, pos, negsuc}
use expedit.Loadtest.{new_recorder, recorded_ids, recorded_count, missing, random_int}
use expedit.Loadtest.Drawing.{IsIntN, IsWithin, span, random_int-range}
use expedit.Loadtest.Recording.{record_all, record_all-recorded}

record_all-recorded_example :
    (recorded_ids "a" (record_all (("a", "1") ∷ ("b", "2") ∷ ("a", "3") ∷ []) new_recorder)
      ≡ "1" ∷ "3" ∷ [])
    × (recorded_count "a" (record_all (("a", "1") ∷ ("b", "2") ∷ ("a", "3") ∷ []) new_recorder) ≡ 2)
record_all-recorded_example = record_all-recorded "a" (("a", "1") ∷ ("b", "2") ∷ ("a", "3") ∷ [])

missing_one : missing ("1" ∷ "2" ∷ []) ("2" ∷ []) ≡ "1" ∷ []
unfolding missing insert lookup
missing_one = refl

-- IntN that gives the least number.
abbrev least : ℤ → Option ℤ
least (pos n) = if n =? 0 then none else some (pos 0)
least (negsuc n) = none

IsIntN-least : IsIntN least
IsIntN-least = record {
  draws = λ n h. (0, ground arith, h);
  zero_panics = refl;
  negative_panics = λ n. refl;
}

random_int-range_example :
    ((span (negsuc 4) (pos 5) < 2 ^ 63)
      × ((r : ℤ) × (random_int least (negsuc 4) (pos 5) ≡ some r) × IsWithin (negsuc 4) (pos 5) r))
    ⊎ ((2 ^ 63 ≤ span (negsuc 4) (pos 5)) × (random_int least (negsuc 4) (pos 5) ≡ none))
random_int-range_example =
    random_int-range least (negsuc 4) (pos 5) IsIntN-least (omega arith) (omega arith) tt

random_five : random_int least (negsuc 4) (pos 5) ≡ some (negsuc 4)
unfolding random_int
random_five = refl
