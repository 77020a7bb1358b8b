-- ===== src/Prelude/Maps.antt =====
-- Go maps with text keys, as association lists. The order of the list is the order in which a
-- `range` loop happens to visit the map; Go leaves it open.
use Prim.Native.String.{String}
use mathlib.Core.Path.{◌≡◌, refl}
use mathlib.Core.Option.{Option, none, some}
use mathlib.Core.List.{List, [], ◌∷◌}
use native.Mathlib.Omega.{arith}
use text.Mathlib.TextEquality.{eq_iff}
use text.Mathlib.TextPositions.{eq_refl}
use expedit.Prelude.Tests.{◌==◌, if◌then◌else◌}

abbrev pub Map {ℓ} : Type ℓ → Type ℓ
Map V = List (String × V)

module _ {ℓ} {V : Type ℓ} where
  -- `m[key]`, with its second result as `none`
  unfoldable pub lookup : String → Map V → Option V
  lookup key [] = none
  lookup key (entry ∷ rest) = if entry.0 == key then some entry.1 else lookup key rest

  -- Go's maps hold each key once.
  abbrev pub IsMap : Map V → Type ℓ
  IsMap [] = Unit
  IsMap (entry ∷ rest) = (lookup entry.0 rest ≡ none) × IsMap rest

  -- `m[key] = value`
  unfoldable pub insert : String → V → Map V → Map V
  insert key value [] = (key, value) ∷ []
  insert key value (entry ∷ rest) =
      let behind = insert key value rest in
      if entry.0 == key then (key, value) ∷ rest else entry ∷ behind

  pub lookup-insert :
      (key other : String) (value : V) (m : Map V)
      → lookup other (insert key value m) ≡ (if key == other then some value else lookup other m)
  unfolding lookup insert
  lookup-insert key other value [] = refl
  lookup-insert key other value (entry ∷ rest) = ground (
    arith,
    lookup-insert key other value rest,
    eq_iff entry.0 other,
    eq_iff key other,
    eq_iff entry.0 key,
  )

  pub insert-IsMap : (key : String) (value : V) (m : Map V) → IsMap m → IsMap (insert key value m)
  unfolding lookup insert
  insert-IsMap key value [] h = (refl, tt)
  insert-IsMap key value (entry ∷ rest) h = ground (
    arith,
    insert-IsMap key value rest h.1,
    lookup-insert key entry.0 value rest,
    eq_iff key entry.0,
    eq_iff entry.0 key,
  )

  pub lookup-insert_self :
      (key : String) (value : V) (m : Map V) → lookup key (insert key value m) ≡ some value
  lookup-insert_self key value m = simp (lookup-insert, eq_refl)
