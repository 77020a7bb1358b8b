-- ===== src/Go/Value/Equality.antt =====
-- reflect.DeepEqual is reflexive on the values of this model.
use expedit.Prelude.{
  ℕ, String, ◌≡◌, refl, Bool, true, false, none, some, List, [], ◌∷◌, arith, ◌=?◌, eq_refl, eq_iff,
}
use expedit.Go.Value.{
  ℤ, pos, negsuc, Error, Errors, sentinel, new, wrap, join, external, only, also, Value, nil, str,
  bytes, int, boolean, err, dict, other, Fields, end, field, bytes_eq, bool_eq, int_eq, error_eq,
  errors_eq, find_field, size, deep_equal, fields_equal,
}

nat_refl : (n : ℕ) → (n =? n) ≡ true
nat_refl n = ground arith

bytes_eq_refl : (xs : List ℕ) → bytes_eq xs xs ≡ true
bytes_eq_refl [] = refl
bytes_eq_refl (x ∷ xs) = rw (nat_refl x) (bytes_eq_refl xs)

bool_eq_refl : (b : Bool) → bool_eq b b ≡ true
bool_eq_refl true = refl
bool_eq_refl false = refl

int_eq_refl : (n : ℤ) → int_eq n n ≡ true
int_eq_refl (pos n) = nat_refl n
int_eq_refl (negsuc n) = nat_refl n

mutual
  unfolding error_eq errors_eq

  error_eq_refl : (e : Error) → error_eq e e ≡ true
  error_eq_refl (sentinel s) = eq_refl s
  error_eq_refl (new s) = eq_refl s
  error_eq_refl (wrap s e) = rw (eq_refl s) (error_eq_refl e)
  error_eq_refl (join es) = errors_eq_refl es
  error_eq_refl (external n s) = rw (nat_refl n) (eq_refl s)

  errors_eq_refl : (es : Errors) → errors_eq es es ≡ true
  errors_eq_refl (only e) = error_eq_refl e
  errors_eq_refl (also e es) = rw (error_eq_refl e) (errors_eq_refl es)

-- A map holds each key once, at every depth.
abbrev mutual
  pub IsValue : Value → Type 0
  IsValue (dict fs) = AreFields fs
  IsValue nil = Unit
  IsValue (str s) = Unit
  IsValue (bytes b) = Unit
  IsValue (int n) = Unit
  IsValue (boolean b) = Unit
  IsValue (err e) = Unit
  IsValue (other s n) = Unit

  pub AreFields : Fields → Type 0
  AreFields end = Unit
  AreFields (field k v fs) = IsValue v × (find_field k fs ≡ none) × AreFields fs

-- Every field of the first is the one found in the second.
abbrev pub SubFields : Fields → Fields → Type 0
SubFields end gs = Unit
SubFields (field k v fs) gs = (find_field k gs ≡ some v) × SubFields fs gs

SubFields-weaken :
    (fs gs : Fields) (k : String) (v : Value)
    → find_field k fs ≡ none
    → SubFields fs gs
    → SubFields fs (field k v gs)
SubFields-weaken end gs k v h s = tt
SubFields-weaken (field j w fs) gs k v h (found, s) =
    (ground (arith, eq_iff k j, eq_iff j k), SubFields-weaken fs gs k v (ground arith) s)

SubFields-refl : (fs : Fields) → AreFields fs → SubFields fs fs
SubFields-refl end h = tt
SubFields-refl (field k v fs) (h, fresh, hs) =
    (rw (eq_refl k), SubFields-weaken fs fs k v fresh (SubFields-refl fs hs))

mutual
  unfolding deep_equal

  deep_equal_refl_lem : (v : Value) → IsValue v → deep_equal v v ≡ true
  deep_equal_refl_lem nil h = refl
  deep_equal_refl_lem (str s) h = eq_refl s
  deep_equal_refl_lem (bytes b) h = bytes_eq_refl b
  deep_equal_refl_lem (int n) h = int_eq_refl n
  deep_equal_refl_lem (boolean b) h = bool_eq_refl b
  deep_equal_refl_lem (err e) h = error_eq_refl e
  deep_equal_refl_lem (other s n) h = rw (eq_refl s) (nat_refl n)
  deep_equal_refl_lem (dict fs) h =
      rw (nat_refl (size fs)) (fields_equal_refl fs fs h (SubFields-refl fs h))

  fields_equal_refl : (fs gs : Fields) → AreFields fs → SubFields fs gs → fields_equal fs gs ≡ true
  fields_equal_refl end gs h s = refl
  fields_equal_refl (field k v fs) gs (h, fresh, hs) (found, s) =
      rw found (rw (deep_equal_refl_lem v h) (fields_equal_refl fs gs hs s))

pub deep_equal_refl : (v : Value) → IsValue v → deep_equal v v ≡ true
deep_equal_refl v h = deep_equal_refl_lem v h
