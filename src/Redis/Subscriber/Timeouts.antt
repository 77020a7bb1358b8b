-- ===== src/Redis/Subscriber/Timeouts.antt =====
-- The timeouts of a redis subscriber.
use expedit.Prelude.{
  ℕ, ◌≤◌, ◌*◌, ◌/◌, not, ◌&&◌, ◌||◌, ◌⊎◌, inl, ap, ◌∙◌, lt→ltb, subst, eq_iff, if◌then◌else◌,
  String, Bool, true, false, none, List, ◌≡◌, refl, ◌≢◌, ◌==◌, inr, arith,
}
use expedit.Go.Value.{Error, ℤ, pos, is_positive, lt_int}
use expedit.Redis.Subscriber.{
  SubscriberOption, SubscriberOptions, RedisSubscriber, new_redis_subscriber, apply_options,
  default_options, chosen_timeout, four_fifths, timeout_error, checked, chosen_from,
}

abbrev or_left : {A : Type 0} → A → Error ⊎ A → A
or_left a (inl e) = a
or_left a (inr b) = b

abbrev IsTimely : {W : Type 0} → RedisSubscriber W → Type 0
IsTimely sub =
    sub.options.consumer_group ≢ ""
    → (is_positive sub.processing_timeout ≡ true)
      × (lt_int sub.processing_timeout sub.options.pending_message_idle_timeout ≡ true)

checked-IsTimely :
    {W : Type 0} (made sub : RedisSubscriber W) (grouped positive below : Bool)
    → (made.options.consumer_group == "") ≡ grouped
    → is_positive made.processing_timeout ≡ positive
    → lt_int made.processing_timeout made.options.pending_message_idle_timeout ≡ below
    → (if not grouped && (not positive || not below) then inl timeout_error else inr made) ≡ inr sub
    → IsTimely sub
checked-IsTimely made sub true positive below g p b h =
    subst IsTimely (ap (or_left made) h)
      (λ n. elim (n ((eq_iff made.options.consumer_group "").0 g)) [ ])
checked-IsTimely made sub false true true g p b h =
    subst IsTimely (ap (or_left made) h) (λ n. (p, b))
checked-IsTimely made sub false true false g p b h = cc
checked-IsTimely made sub false false below g p b h = cc

-- A redis subscriber in a consumer group has a processing timeout that is positive and below the
-- idle timeout after which another consumer claims a message, whatever options it was made with.
pub new_redis_subscriber-timeouts :
    {W : Type 0} (stream : String) (opts : List (SubscriberOption W)) {sub : RedisSubscriber W}
    → new_redis_subscriber true stream opts ≡ inr sub
    → sub.options.consumer_group ≢ ""
    → (is_positive sub.processing_timeout ≡ true)
      × (lt_int sub.processing_timeout sub.options.pending_message_idle_timeout ≡ true)
unfolding new_redis_subscriber
new_redis_subscriber-timeouts stream opts h g =
    let options = apply_options opts default_options in
    let made : RedisSubscriber _ = record {
      stream = stream;
      options = options;
      processing_timeout = chosen_timeout options;
    } in
    checked-IsTimely made _ (options.consumer_group == "") (is_positive (chosen_timeout options))
      (lt_int (chosen_timeout options) options.pending_message_idle_timeout) refl refl refl h g

abbrev made_with : {W : Type 0} → String → SubscriberOptions W → ℤ → RedisSubscriber W
made_with stream o timeout = record { stream = stream; options = o; processing_timeout = timeout }

abbrev unless : {W : Type 0} → Bool → RedisSubscriber W → Error ⊎ RedisSubscriber W
unless refused sub = if refused then inl timeout_error else inr sub

checked_fits :
    {W : Type 0} (stream : String) (o : SubscriberOptions W) (n : ℕ)
    → o.pending_message_idle_timeout ≡ pos n
    → 2 ≤ n
    → checked stream o (pos (n * 4 / 5)) ≡ inr (made_with stream o (pos (n * 4 / 5)))
unfolding checked
checked_fits stream o n i b =
    let timeout : ℤ = pos (n * 4 / 5) in
    let positive : is_positive timeout ≡ true = ground arith in
    let below : lt_int timeout (pos n) ≡ true = lt→ltb (n * 4 / 5) n (omega arith) in
    let grouped : Bool = not (o.consumer_group == "") in
    ap
      (λ (t : Bool).
        unless (grouped && (not t || not (lt_int timeout o.pending_message_idle_timeout)))
          (made_with stream o timeout))
      positive
    ∙ (ap (λ (t : Bool). unless (grouped && (not true || not t)) (made_with stream o timeout))
          (ap (lt_int timeout) i ∙ below)
        ∙ ungrouped (o.consumer_group == ""))
  where
    ungrouped :
        (b : Bool)
        → unless (not b && false) (made_with stream o (pos (n * 4 / 5)))
          ≡ inr (made_with stream o (pos (n * 4 / 5)))
    ungrouped true = refl
    ungrouped false = refl

-- Where the options give no processing timeout, and an idle timeout of n >= 2 nanoseconds, the
-- constructor succeeds with the options applied and the timeout n * 4 / 5.
pub new_redis_subscriber-default :
    {W : Type 0} (stream : String) (opts : List (SubscriberOption W)) (n : ℕ)
    → (apply_options opts default_options).processing_timeout ≡ none
    → (apply_options opts default_options).pending_message_idle_timeout ≡ pos n
    → 2 ≤ n
    → new_redis_subscriber true stream opts
      ≡ inr (record {
        stream = stream;
        options = apply_options opts default_options;
        processing_timeout = pos (n * 4 / 5);
      })
unfolding new_redis_subscriber four_fifths
new_redis_subscriber-default stream opts n h i b =
    let o = apply_options opts default_options in
    let timeout : chosen_timeout o ≡ pos (n * 4 / 5) =
      ap (λ t. chosen_from t o.pending_message_idle_timeout) h ∙ ap four_fifths i in
    ap (checked stream o) timeout ∙ checked_fits stream o n i b
