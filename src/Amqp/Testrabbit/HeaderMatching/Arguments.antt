-- ===== src/Amqp/Testrabbit/HeaderMatching/Arguments.antt =====
-- What a binding of a headers exchange matches on.
use expedit.Prelude.{
  ◌≡◌, refl, ap, ◌∙◌, String, Option, none, some, [], Map, IsMap, lookup, read_from, eq_refl,
  insert, lookup-insert, lookup-collect, some_inj, if◌then◌else◌, ◌==◌,
}
use expedit.Go.Value.{Value, str}
use expedit.Amqp.Testrabbit.HeaderMatching.{HeaderBinding, binding_args}

-- The first value, or else the second.
abbrev pub or_value : Option Value → Option Value → Option Value
or_value (some v) w = some v
or_value none w = w

-- The arguments of a binding hold each of its headers with its value, and the match type under
-- `x-match`, unless the binding has a header of that name: then that header decides how the broker
-- matches.
pub lookup-binding_args :
    (binding : HeaderBinding) (key : String)
    → IsMap binding.headers
    → lookup key (binding_args binding)
      ≡ or_value
          (lookup key binding.headers)
          (if "x-match" == key then some (str binding.match_type) else none)
unfolding binding_args lookup
lookup-binding_args binding key h =
    let match : Map Value = insert "x-match" (str binding.match_type) [] in
    lookup-collect (λ k v. some (k, v)) (λ k. k) (λ k other v w s. ap first (some_inj s)) key
      binding.headers match h
    ∙ (found (lookup key binding.headers) (lookup key match)
        ∙ ap (or_value (lookup key binding.headers))
            (lookup-insert "x-match" key (str binding.match_type) []))
  where
    first : String × Value → String
    first (k, v) = k

    found :
        (o before : Option Value) → read_from (λ v. some (key, v)) key o before ≡ or_value o before
    found none before = refl
    found (some v) before = rw (eq_refl key) refl
