-- ===== src/Go/Number.antt =====
-- strconv and fmt on numbers and booleans: ParseInt in base 10 with 64 bits, ParseBool, and `%v` of an
-- int64. Of an error only that there is one.
pub mod RoundTrip
use Prim.Native.Char.{Char, code}
use Prim.Native.String.{String, [], ◌∷◌}
use expedit.Prelude.{
  ℕ, zero, suc, ◌+◌, ◌-◌, ◌*◌, ◌/◌, ◌%◌, ◌^◌, Bool, true, false, ◌||◌, Option, none, some, ◌=?◌,
  ◌==◌, ltb, if◌then◌else◌,
}
use expedit.Go.Value.{ℤ, pos, negsuc}

-- Of a number below ten.
unfoldable pub digit : ℕ → Char
digit zero = "0"
digit (suc zero) = "1"
digit (suc (suc zero)) = "2"
digit (suc (suc (suc zero))) = "3"
digit (suc (suc (suc (suc zero)))) = "4"
digit (suc (suc (suc (suc (suc zero))))) = "5"
digit (suc (suc (suc (suc (suc (suc zero)))))) = "6"
digit (suc (suc (suc (suc (suc (suc (suc zero))))))) = "7"
digit (suc (suc (suc (suc (suc (suc (suc (suc zero)))))))) = "8"
digit d = "9"

-- The digits of a number in front of a text; the fuel is no less than the number.
unfoldable pub digits : ℕ → ℕ → String → String
unfolding digit
digits zero n out = out
digits (suc fuel) zero out = out
digits (suc fuel) (suc n) out = digits fuel (suc n / 10) (digit (suc n % 10) ∷ out)

unfoldable pub format_nat : ℕ → String
unfolding digits
format_nat zero = "0"
format_nat (suc n) = digits (suc n) (suc n) []

unfoldable pub format_int : ℤ → String
unfolding format_nat
format_int (pos n) = format_nat n
format_int (negsuc n) = "-" ∷ format_nat (suc n)

-- The value of a text of digits behind `n`.
unfoldable pub scan : String → ℕ → Option ℕ
scan [] n = some n
scan (c ∷ s) n =
    let rest = scan s (n * 10 + (code c - 48)) in
    if ltb (code c) 48 || ltb 57 (code c) then none else rest

unfoldable pub unsigned : String → Option ℕ
unfolding scan
unsigned [] = none
unsigned (c ∷ s) = scan (c ∷ s) 0

abbrev pub negative : ℕ → ℤ
negative zero = pos 0
negative (suc n) = negsuc n

-- The range of an int64.
abbrev pub in_range : Bool → Option ℕ → Option ℤ
in_range minus none = none
in_range true (some n) = if ltb (2 ^ 63) n then none else some (negative n)
in_range false (some n) = if ltb n (2 ^ 63) then some (pos n) else none

unfoldable pub parse_int : String → Option ℤ
unfolding unsigned
parse_int [] = none
parse_int (c ∷ s) =
    if code c =? 43
    then in_range false (unsigned s)
    else if code c =? 45
    then in_range true (unsigned s)
    else in_range false (unsigned (c ∷ s))

unfoldable pub parse_bool : String → Option Bool
parse_bool s =
    if (s == "1") || (s == "t") || (s == "T") || (s == "true") || (s == "TRUE") || (s == "True")
    then some true
    else if (s == "0")
        || (s == "f")
        || (s == "F")
        || (s == "false")
        || (s == "FALSE")
        || (s == "False")
    then some false
    else none
