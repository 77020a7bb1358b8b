-- ===== src/Amqp/Publisher/Checks.antt =====
-- The checks of an AMQP publisher at its construction.
use expedit.Prelude.{
  ℕ, ◌≤◌, Bool, true, false, ◌||◌, ltb, Option, none, some, List, inr, ◌≡◌, refl, sym, ◌∙◌, ◌≢◌,
  ◌==◌, if◌then◌else◌, arith, eq_iff, lt→ltb,
}
use expedit.Go.Value.{Error}
use expedit.Publisher.Destinations.{RoutingFunc, Config}
use expedit.Amqp.Publisher.{
  DefaultMessageOptions, RoutingKeyFunc, PublisherOption, Channel, AmqpMessage, check_defaults,
  new_amqp_publisher, unless,
}

not_ltb : (a b : ℕ) → ltb a b ≡ false → b ≤ a
not_ltb a b h = ground (arith, lt→ltb a b)

abbrev pub IsAllowed : DefaultMessageOptions → Type 0
IsAllowed o =
    (o.content_type ≢ "") × ((o.priority ≤ 9) × ((1 ≤ o.delivery_mode) × (o.delivery_mode ≤ 2)))

check_defaults-IsAllowed : (o : DefaultMessageOptions) → check_defaults o ≡ none → IsAllowed o
unfolding check_defaults
check_defaults-IsAllowed o h =
    tested (o.content_type == "") (ltb 9 o.priority) (ltb o.delivery_mode 1) (ltb 2 o.delivery_mode)
      _ _ _ refl refl refl refl h
  where
    tested :
        (a b c d : Bool) (e₁ e₂ e₃ : Error)
        → (o.content_type == "") ≡ a
        → ltb 9 o.priority ≡ b
        → ltb o.delivery_mode 1 ≡ c
        → ltb 2 o.delivery_mode ≡ d
        → (if a then some e₁ else if b then some e₂ else if c || d then some e₃ else none) ≡ none
        → IsAllowed o
    tested true b c d e₁ e₂ e₃ ha hb hc hd h' = cc
    tested false true c d e₁ e₂ e₃ ha hb hc hd h' = cc
    tested false false true d e₁ e₂ e₃ ha hb hc hd h' = cc
    tested false false false true e₁ e₂ e₃ ha hb hc hd h' = cc
    tested false false false false e₁ e₂ e₃ ha hb hc hd h' = (
      λ e. let h₂ : false ≡ true = sym ha ∙ (eq_iff o.content_type "").1 e in cc,
      (not_ltb 9 o.priority hb, (not_ltb o.delivery_mode 1 hc, not_ltb 2 o.delivery_mode hd)),
    )

unless-none : {A : Type 0} (o : Option Error) (a : A) {b : A} → unless o a ≡ inr b → o ≡ none
unless-none none a h = refl
unless-none (some e) a h = cc

-- A publisher is only made with default options whose content type is not empty, whose priority is
-- at most 9 and whose delivery mode is transient (1) or persistent (2); so the calls that pass none
-- of the two functions, or other default options, return an error.
pub new_amqp_publisher-IsAllowed :
    {W : Type 0} (channel : Channel W) (routing : Option (RoutingFunc W))
    (key : Option (RoutingKeyFunc W)) (defaults : DefaultMessageOptions)
    (opts : List (PublisherOption W)) {c : Config W AmqpMessage}
    → new_amqp_publisher channel routing key defaults opts ≡ inr c
    → IsAllowed defaults × ((routing ≢ none) × (key ≢ none))
unfolding new_amqp_publisher
new_amqp_publisher-IsAllowed channel none key defaults opts h = cc
new_amqp_publisher-IsAllowed channel (some r) none defaults opts h = cc
new_amqp_publisher-IsAllowed channel (some r) (some k) defaults opts h = (
  check_defaults-IsAllowed defaults (unless-none (check_defaults defaults) _ h),
  (λ e. cc, λ e. cc),
)
