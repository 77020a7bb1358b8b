-- ===== src/Go/Number/RoundTrip.antt =====
-- Every int64 is read back from its text.
use Prim.Native.Char.{code}
use Prim.Native.String.{String, [], ◌∷◌}
use expedit.Prelude.{
  ℕ, zero, suc, ◌+◌, ◌-◌, ◌*◌, ◌/◌, ◌%◌, ◌^◌, ◌≤◌, ◌<◌, ◌≡◌, refl, ap, ◌∙◌, true, false, some, ltb,
  arith,
}
use expedit.Go.Value.{ℤ, pos, negsuc}
use expedit.Go.Number.{digit, digits, format_nat, format_int, scan, unsigned, in_range, parse_int}

code-digit : (d : ℕ) → d < 10 → code (digit d) ≡ 48 + d
unfolding digit
code-digit zero h = refl
code-digit (suc zero) h = refl
code-digit (suc (suc zero)) h = refl
code-digit (suc (suc (suc zero))) h = refl
code-digit (suc (suc (suc (suc zero)))) h = refl
code-digit (suc (suc (suc (suc (suc zero))))) h = refl
code-digit (suc (suc (suc (suc (suc (suc zero)))))) h = refl
code-digit (suc (suc (suc (suc (suc (suc (suc zero))))))) h = refl
code-digit (suc (suc (suc (suc (suc (suc (suc (suc zero)))))))) h = refl
code-digit (suc (suc (suc (suc (suc (suc (suc (suc (suc d))))))))) h =
    let last : 57 ≡ 48 + suc (suc (suc (suc (suc (suc (suc (suc (suc d)))))))) = omega (arith, h) in
    last

scan-digit : (n : ℕ) (out : String) → scan (digit (n % 10) ∷ out) (n / 10) ≡ scan out n
unfolding scan
scan-digit n out =
    let at = code-digit (n % 10) (omega arith) in
    let low : ltb (48 + n % 10) 48 ≡ false = ground arith in
    let high : ltb 57 (48 + n % 10) ≡ false = ground arith in
    let value : n / 10 * 10 + (48 + n % 10 - 48) ≡ n = omega arith in rw (at, low, high, value) refl

scan-digits : (fuel n : ℕ) (out : String) → n ≤ fuel → scan (digits fuel n out) 0 ≡ scan out n
unfolding digits
scan-digits zero n out h = ap (scan out) (omega (arith, h))
scan-digits (suc fuel) zero out h = refl
scan-digits (suc fuel) (suc n) out h =
    scan-digits fuel (suc n / 10) (digit (suc n % 10) ∷ out) (omega (arith, h))
    ∙ scan-digit (suc n) out

-- The text begins with a digit.
abbrev IsNumeral : String → Type 0
IsNumeral [] = ⊥
IsNumeral (c ∷ s) = (48 ≤ code c) × (code c ≤ 57)

digit-IsNumeral : (d : ℕ) (s : String) → d < 10 → IsNumeral (digit d ∷ s)
digit-IsNumeral d s h = let at = code-digit d h in (omega (arith, at), omega (arith, at))

digits-IsNumeral : (fuel n : ℕ) (out : String) → IsNumeral out → IsNumeral (digits fuel n out)
unfolding digits
digits-IsNumeral zero n out h = h
digits-IsNumeral (suc fuel) zero out h = h
digits-IsNumeral (suc fuel) (suc n) out h =
    digits-IsNumeral fuel (suc n / 10) (digit (suc n % 10) ∷ out)
      (digit-IsNumeral (suc n % 10) out (omega arith))

format_nat-IsNumeral : (n : ℕ) → IsNumeral (format_nat n)
unfolding format_nat digits
format_nat-IsNumeral zero = (omega arith, omega arith)
format_nat-IsNumeral (suc n) =
    digits-IsNumeral n (suc n / 10) (digit (suc n % 10) ∷ [])
      (digit-IsNumeral (suc n % 10) [] (omega arith))

pub scan-format_nat : (n : ℕ) → scan (format_nat n) 0 ≡ some n
unfolding format_nat scan
scan-format_nat zero = refl
scan-format_nat (suc n) = scan-digits (suc n) (suc n) [] (omega arith)

unsigned-IsNumeral : (s : String) → IsNumeral s → unsigned s ≡ scan s 0
unfolding unsigned
unsigned-IsNumeral [] h = elim h [ ]
unsigned-IsNumeral (c ∷ s) h = refl

-- A numeral has no sign.
parse_int-IsNumeral : (s : String) → IsNumeral s → parse_int s ≡ in_range false (scan s 0)
unfolding parse_int
parse_int-IsNumeral [] h = elim h [ ]
parse_int-IsNumeral (c ∷ s) h = ground arith

abbrev pub IsInt64 : ℤ → Type 0
IsInt64 (pos n) = n < 2 ^ 63
IsInt64 (negsuc n) = n < 2 ^ 63

pub parse_int-format_int : (i : ℤ) → IsInt64 i → parse_int (format_int i) ≡ some i
unfolding format_int parse_int
parse_int-format_int (pos n) h =
    parse_int-IsNumeral (format_nat n) (format_nat-IsNumeral n)
    ∙ (ap (in_range false) (scan-format_nat n) ∙ ground arith)
parse_int-format_int (negsuc n) h =
    ap (in_range true) (
      unsigned-IsNumeral (format_nat (suc n)) (format_nat-IsNumeral (suc n))
      ∙ scan-format_nat (suc n))
    ∙ ground arith
