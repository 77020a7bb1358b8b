-- ===== src/Prelude/Text.antt =====
-- strings.HasPrefix and strings.TrimPrefix.
use Prim.Native.Char.{code}
use Prim.Native.String.{String, [], ◌∷◌, ◌++◌}
use mathlib.Core.Path.{◌≡◌, refl, sym, ap, ◌∙◌}
use mathlib.Core.Bool.{Bool, true, false}
use mathlib.Core.Option.{Option, none, some}
use native.Mathlib.Omega.{arith}
use text.Mathlib.TextLemmas.{nil-append, cons-append}
use text.Mathlib.TextEquality.{Char-path}
use expedit.Prelude.Tests.{◌=?◌, if◌then◌else◌, is_some, some_inj, =?_iff}

-- What follows the prefix, if the text has it.
unfoldable pub strip_prefix : String → String → Option String
strip_prefix [] s = some s
strip_prefix (c ∷ p) [] = none
strip_prefix (c ∷ p) (d ∷ s) = if code c =? code d then strip_prefix p s else none

unfoldable pub has_prefix : String → String → Bool
unfolding strip_prefix
has_prefix s p = is_some (strip_prefix p s)

abbrev or_else : Option String → String → String
or_else none s = s
or_else (some t) s = t

unfoldable pub trim_prefix : String → String → String
unfolding strip_prefix
trim_prefix s p = or_else (strip_prefix p s) s

strip_prefix-append : (p s : String) → strip_prefix p (p ++ s) ≡ some s
unfolding strip_prefix
strip_prefix-append [] s = rw nil-append
strip_prefix-append (c ∷ p) s = rw cons-append (ground (arith, strip_prefix-append p s))

pub has_prefix-append : (p s : String) → has_prefix (p ++ s) p ≡ true
unfolding has_prefix
has_prefix-append p s = rw (strip_prefix-append p s)

pub trim_prefix-append : (p s : String) → trim_prefix (p ++ s) p ≡ s
unfolding trim_prefix
trim_prefix-append p s = rw (strip_prefix-append p s)

strip_prefix-some : (p s t : String) → strip_prefix p s ≡ some t → s ≡ p ++ t
unfolding strip_prefix
strip_prefix-some [] s t h = some_inj h ∙ sym (nil-append t)
strip_prefix-some (c ∷ p) [] t h = cc
strip_prefix-some (c ∷ p) (d ∷ s) t h = same (code c =? code d) refl h (strip_prefix-some p s t)
  where
    same :
        (b : Bool)
        → (code c =? code d) ≡ b
        → (if b then strip_prefix p s else none) ≡ some t
        → (strip_prefix p s ≡ some t → s ≡ p ++ t)
        → d ∷ s ≡ (c ∷ p) ++ t
    same true e h' rest =
        let char : d ≡ c = sym (Char-path c d ((=?_iff (code c) (code d)).0 e)) in
        ap (λ x. x ∷ s) char ∙ (ap (λ x. c ∷ x) (rest h') ∙ sym (cons-append c p t))
    same false e h' rest = cc

pub has_prefix-trim : (p s : String) → has_prefix s p ≡ true → s ≡ p ++ trim_prefix s p
unfolding has_prefix trim_prefix
has_prefix-trim p s h = trimmed (strip_prefix p s) refl h
  where
    trimmed : (o : Option String) → strip_prefix p s ≡ o → is_some o ≡ true → s ≡ p ++ or_else o s
    trimmed none e i = cc
    trimmed (some t) e i = strip_prefix-some p s t e
