-- ===== src/Go/Int.antt =====
-- The arithmetic of Go's int, which has 64 bits and wraps around: a number's residue modulo 2^64 is
-- computed with, and read as a signed number again.
use expedit.Prelude.{ℕ, ◌+◌, ◌-◌, ◌%◌, ◌^◌, ◌≤◌, ltb, if◌then◌else◌}
use expedit.Go.Value.{ℤ, pos, negsuc}

abbrev pub word : ℕ
word = 2 ^ 64

abbrev pub residue : ℤ → ℕ
residue (pos n) = n % word
residue (negsuc n) = word - 1 - n % word

abbrev pub signed : ℕ → ℤ
signed u = if ltb u (2 ^ 63) then pos u else negsuc (word - 1 - u)

infixl 40 ◌+ℤ◌ ◌-ℤ◌
unfoldable pub ◌+ℤ◌ : ℤ → ℤ → ℤ
a +ℤ b = signed ((residue a + residue b) % word)

unfoldable pub ◌-ℤ◌ : ℤ → ℤ → ℤ
a -ℤ b = signed ((residue a + (word - residue b)) % word)

infix 35 ◌≤ℤ◌
abbrev pub ◌≤ℤ◌ : ℤ → ℤ → Type 0
pos m ≤ℤ pos n = m ≤ n
negsuc m ≤ℤ pos n = Unit
pos m ≤ℤ negsuc n = ⊥
negsuc m ≤ℤ negsuc n = n ≤ m
