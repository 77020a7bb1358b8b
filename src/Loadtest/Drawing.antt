-- ===== src/Loadtest/Drawing.antt =====
-- The range of RandomInt.
use expedit.Prelude.{
  ℕ, suc, ◌+◌, ◌-◌, ◌%◌, ◌^◌, ◌≤◌, ◌<◌, ◌≡◌, refl, sym, ap, ◌∙◌, subst, Bool, Bool-cases, true,
  false, Option, none, some, ltb, if◌then◌else◌, arith, ◌⊎◌, inl, inr,
}
use expedit.Go.Value.{ℤ, pos, negsuc}
use expedit.Go.Int.{word, residue, signed, ◌+ℤ◌, ◌-ℤ◌, ◌≤ℤ◌}
use expedit.Go.Number.RoundTrip.{IsInt64}
use expedit.Loadtest.{random_int, drawn}

-- How many numbers a range has.
abbrev pub span : ℤ → ℤ → ℕ
span (pos l) (pos h) = suc h - l
span (negsuc l) (pos h) = h + l + 2
span (pos l) (negsuc h) = 0
span (negsuc l) (negsuc h) = suc l - h

lt_or_le : (a b : ℕ) → (a < b) ⊎ (b ≤ a)
lt_or_le a b = elim (Bool-cases (ltb a b)) [
  | inl e ↦ inl (ground arith)
  | inr e ↦ inr (ground arith)
]

signed-pos : (u : ℕ) → u < 2 ^ 63 → signed u ≡ pos u
signed-pos u h = ground arith

signed-negsuc : (u : ℕ) → 2 ^ 63 ≤ u → signed u ≡ negsuc (word - 1 - u)
signed-negsuc u h = ground arith

residue-signed : (u : ℕ) → u < word → residue (signed u) ≡ u
residue-signed u h = tested (ltb u (2 ^ 63)) refl
  where
    tested :
        (b : Bool) → ltb u (2 ^ 63) ≡ b → residue (if b then pos u else negsuc (word - 1 - u)) ≡ u
    tested true e = omega arith
    tested false e = omega arith

-- The residue of the difference of two numbers, and of one more.
distance :
    (lower higher : ℤ)
    → IsInt64 lower
    → IsInt64 higher
    → lower ≤ℤ higher
    → ((residue higher + (word - residue lower)) % word + 1) % word ≡ span lower higher % word
distance (pos l) (pos h) il ih le = omega arith
distance (negsuc l) (pos h) il ih le = omega arith
distance (pos l) (negsuc h) il ih le = absurd le
distance (negsuc l) (negsuc h) il ih le = omega arith

width :
    (lower higher : ℤ)
    → IsInt64 lower
    → IsInt64 higher
    → lower ≤ℤ higher
    → higher -ℤ lower +ℤ pos 1 ≡ signed (span lower higher % word)
unfolding ◌+ℤ◌ ◌-ℤ◌
width lower higher il ih le =
    let u = (residue higher + (word - residue lower)) % word in
    let small : u < word = omega arith in
    ap (λ x. signed ((x + 1) % word)) (residue-signed u small)
    ∙ ap signed (distance lower higher il ih le)

-- A number of the range.
abbrev pub IsWithin : ℤ → ℤ → ℤ → Type 0
IsWithin lower higher r = (lower ≤ℤ r) × (r ≤ℤ higher)

shifted :
    (k : ℕ) (lower higher : ℤ)
    → IsInt64 lower
    → IsInt64 higher
    → lower ≤ℤ higher
    → k < span lower higher
    → IsWithin lower higher (pos k +ℤ lower)
unfolding ◌+ℤ◌
shifted k (pos l) (pos h) il ih le b =
    let u : (k % word + l % word) % word ≡ k + l = omega arith in
    subst (IsWithin (pos l) (pos h)) (sym (ap signed u ∙ signed-pos (k + l) (omega arith)))
      (omega arith, omega arith)
shifted k (negsuc l) (pos h) il ih le b = crossed (lt_or_le l k)
  where
    u : ℕ
    u = (k % word + (word - 1 - l % word)) % word

    crossed : (l < k) ⊎ (k ≤ l) → IsWithin (negsuc l) (pos h) (signed u)
    crossed (inr c) =
        let e : word - 1 - u ≡ l - k = omega arith in
        subst (IsWithin (negsuc l) (pos h)) (sym (signed-negsuc u (omega arith) ∙ ap negsuc e))
          (omega arith, tt)
    crossed (inl c) =
        let e : u ≡ k - l - 1 = omega arith in
        subst (IsWithin (negsuc l) (pos h)) (sym (signed-pos u (omega arith))) (tt, omega arith)
shifted k (pos l) (negsuc h) il ih le b = absurd le
shifted k (negsuc l) (negsuc h) il ih le b =
    let u : (k % word + (word - 1 - l % word)) % word ≡ k + (word - 1 - l) = omega arith in
    let e : word - 1 - (k + (word - 1 - l)) ≡ l - k = omega arith in
    subst (IsWithin (negsuc l) (negsuc h))
      (sym (ap signed u ∙ (signed-negsuc (k + (word - 1 - l)) (omega arith) ∙ ap negsuc e)))
      (omega arith, omega arith)

span-bounds :
    (lower higher : ℤ)
    → IsInt64 lower
    → IsInt64 higher
    → lower ≤ℤ higher
    → (0 < span lower higher) × (span lower higher ≤ word)
span-bounds (pos l) (pos h) il ih le = (omega arith, omega arith)
span-bounds (negsuc l) (pos h) il ih le = (omega arith, omega arith)
span-bounds (pos l) (negsuc h) il ih le = absurd le
span-bounds (negsuc l) (negsuc h) il ih le = (omega arith, omega arith)

-- What rand.IntN promises.
pub record IsIntN (int_n : ℤ → Option ℤ) : Type 0 where
  pub draws : (n : ℕ) → 0 < n → (k : ℕ) × (int_n (pos n) ≡ some (pos k)) × (k < n)
  pub zero_panics : int_n (pos 0) ≡ none
  pub negative_panics : (n : ℕ) → int_n (negsuc n) ≡ none

-- RandomInt, by whether the range has less than 2^63 numbers: then it gives one of them. If the range
-- has more, it panics, since its size is no positive int.
pub random_int-range :
    (int_n : ℤ → Option ℤ) (lower higher : ℤ)
    → IsIntN int_n
    → IsInt64 lower
    → IsInt64 higher
    → lower ≤ℤ higher
    → ((span lower higher < 2 ^ 63)
        × ((r : ℤ) × (random_int int_n lower higher ≡ some r) × IsWithin lower higher r))
      ⊎ ((2 ^ 63 ≤ span lower higher) × (random_int int_n lower higher ≡ none))
unfolding random_int
random_int-range int_n lower higher promise il ih le =
    let n = span lower higher in
    let (some_number, at_most) = span-bounds lower higher il ih le in
    let size : higher -ℤ lower +ℤ pos 1 ≡ signed (n % word) = width lower higher il ih le in
    let drawn_at : (x : ℤ)
        → signed (n % word) ≡ x
        → random_int int_n lower higher ≡ drawn lower (int_n x) =
      λ x e. ap (λ y. drawn lower (int_n y)) (size ∙ e) in
    elim (lt_or_le n (2 ^ 63)) [
      | inl small ↦
          let (k, e, b) = promise.draws n some_number in
          let whole : n % word ≡ n = omega arith in
          inl (
            small,
            (
              pos k +ℤ lower,
              drawn_at (pos n) (ap signed whole ∙ signed-pos n small) ∙ ap (drawn lower) e,
              shifted k lower higher il ih le b,
            ),
          )
      | inr big ↦ inr (
        big,
        elim (lt_or_le n word) [
          | inl short ↦
              let whole : n % word ≡ n = omega arith in
              drawn_at (negsuc (word - 1 - n)) (ap signed whole ∙ signed-negsuc n big)
              ∙ ap (drawn lower) (promise.negative_panics (word - 1 - n))
          | inr all ↦
              let whole : n % word ≡ 0 = omega arith in
              drawn_at (pos 0) (ap signed whole ∙ signed-pos 0 (omega arith))
              ∙ ap (drawn lower) promise.zero_panics
        ],
      )
    ]
