-- ===== src/Go/Value.antt =====
-- Values of type `any` and `error`, and reflect.DeepEqual on them.
pub mod Equality
use expedit.Prelude.{
  ℕ, String, Bool, true, false, ◌&&◌, Option, none, some, List, [], ◌∷◌, ◌=?◌, ◌==◌, if◌then◌else◌,
  Map, length, ltb,
}

-- A signed integer: `negsuc n` is -(n + 1).
pub data ℤ : Type 0 where
  pos : ℕ → ℤ
  negsuc : ℕ → ℤ

-- The number itself where it is positive, and 0 for all others: `n <= 0` is `pos_part n =? 0`.
abbrev pub pos_part : ℤ → ℕ
pos_part (pos n) = n
pos_part (negsuc n) = 0

abbrev pub is_positive : ℤ → Bool
is_positive (pos n) = if n =? 0 then false else true
is_positive (negsuc n) = false

-- `a < b`
abbrev pub lt_int : ℤ → ℤ → Bool
lt_int (pos m) (pos n) = ltb m n
lt_int (negsuc m) (pos n) = true
lt_int (pos m) (negsuc n) = false
lt_int (negsuc m) (negsuc n) = ltb n m

mutual
  pub data Error : Type 0 where
    sentinel : String → Error  -- a package variable, `var ErrX = errors.New(…)`
    new : String → Error  -- errors.New, or fmt.Errorf without %w, by its text
    wrap : String → Error → Error  -- fmt.Errorf with %w
    join : Errors → Error  -- errors.Join of at least one error
    external : ℕ → String → Error  -- an error of a foreign package: its code and its text

  pub data Errors : Type 0 where
    only : Error → Errors
    also : Error → Errors → Errors

mutual
  pub data Value : Type 0 where
    nil : Value
    str : String → Value
    bytes : List ℕ → Value
    int : ℤ → Value  -- int64
    boolean : Bool → Value
    err : Error → Value  -- a value whose type implements `error`
    dict : Fields → Value  -- map[string]interface{}
    other : String → ℕ → Value  -- a comparable value of another type: the type's name, and which

  pub data Fields : Type 0 where
    end : Fields
    field : String → Value → Fields → Fields

abbrev pub to_fields : Map Value → Fields
to_fields [] = end
to_fields ((k, v) ∷ m) = field k v (to_fields m)

abbrev pub to_map : Fields → Map Value
to_map end = []
to_map (field k v fs) = (k, v) ∷ to_map fs

-- errors.Join: nil if there is nothing to join.
abbrev join_onto : Error → List Error → Errors
join_onto e [] = only e
join_onto e (e' ∷ es) = also e (join_onto e' es)

abbrev pub errors_join : List Error → Option Error
errors_join [] = none
errors_join (e ∷ es) = some (join (join_onto e es))

abbrev bytes_eq : List ℕ → List ℕ → Bool
bytes_eq [] [] = true
bytes_eq (x ∷ xs) (y ∷ ys) = (x =? y) && bytes_eq xs ys
bytes_eq _ _ = false

abbrev bool_eq : Bool → Bool → Bool
bool_eq true b = b
bool_eq false true = false
bool_eq false false = true

abbrev int_eq : ℤ → ℤ → Bool
int_eq (pos m) (pos n) = m =? n
int_eq (negsuc m) (negsuc n) = m =? n
int_eq _ _ = false

mutual
  error_eq : Error → Error → Bool
  error_eq (sentinel s) (sentinel t) = s == t
  error_eq (new s) (new t) = s == t
  error_eq (wrap s e) (wrap t e') = (s == t) && error_eq e e'
  error_eq (join es) (join es') = errors_eq es es'
  error_eq (external m s) (external n t) = (m =? n) && (s == t)
  error_eq _ _ = false

  errors_eq : Errors → Errors → Bool
  errors_eq (only e) (only e') = error_eq e e'
  errors_eq (also e es) (also e' es') = error_eq e e' && errors_eq es es'
  errors_eq _ _ = false

abbrev pub find_field : String → Fields → Option Value
find_field k end = none
find_field k (field j v fs) = if j == k then some v else find_field k fs

abbrev pub size : Fields → ℕ
size fs = length (to_map fs)

-- reflect.DeepEqual. Two maps are equal if they have as many keys, and each key of the first has
-- an equal value in the second.
unfoldable mutual
  unfolding error_eq

  pub deep_equal : Value → Value → Bool
  deep_equal nil nil = true
  deep_equal (str s) (str t) = s == t
  deep_equal (bytes xs) (bytes ys) = bytes_eq xs ys
  deep_equal (int m) (int n) = int_eq m n
  deep_equal (boolean a) (boolean b) = bool_eq a b
  deep_equal (err e) (err e') = error_eq e e'
  deep_equal (dict fs) (dict gs) = (size fs =? size gs) && fields_equal fs gs
  deep_equal (other s m) (other t n) = (s == t) && (m =? n)
  deep_equal _ _ = false

  pub fields_equal : Fields → Fields → Bool
  fields_equal end gs = true
  fields_equal (field k v fs) gs =
      elim (find_field k gs) [ none ↦ false | some w ↦ deep_equal v w ] && fields_equal fs gs
