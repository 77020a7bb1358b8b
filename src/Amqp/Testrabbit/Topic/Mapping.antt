-- ===== src/Amqp/Testrabbit/Topic/Mapping.antt =====
-- Which queues the map of a topic exchange names.
use Prim.Native.String.{◌++◌ as ◌<>◌}
use text.Mathlib.TextLemmas.{append_cancel_left, append_cancel_right}
use expedit.Prelude.{
  ℕ, suc, ◌+◌, ◌≤◌, ◌<◌, ◌≡◌, ◌≢◌, refl, sym, ap, ◌∙◌, subst, String, Bool, true, false, some,
  some_inj, List, [], ◌∷◌, ◌++◌, length, Map, IsMap, lookup, insert, lookup-insert,
  lookup-insert_self, insert-IsMap, ◌⊎◌, inl, inr, ◌==◌, if◌then◌else◌, arith, eq_iff, str_ne,
}
use mathlib.Core.List.{Memᴰ}
use mathlib.Core.List.Memᴰ
use expedit.Go.Number.{format_nat, scan}
use expedit.Go.Number.RoundTrip.{scan-format_nat}
use expedit.Amqp.Testrabbit.Requests.Deleting.{holding}
use expedit.Amqp.Testrabbit.Topic.{pattern_queue}

module _ (exchange_name random_part : String) where
  abbrev pub queue_at : ℕ → String
  queue_at i = pattern_queue exchange_name random_part i

  queue_at-inj : (i j : ℕ) → queue_at i ≡ queue_at j → i ≡ j
  unfolding pattern_queue
  queue_at-inj i j h =
      let numbered = append_cancel_left "_pattern" _ _ (append_cancel_left exchange_name _ _ h) in
      let same = append_cancel_right (format_nat i) (format_nat j) ("_" <> random_part) numbered in
      some_inj (sym (scan-format_nat i) ∙ (ap (λ s. scan s 0) same ∙ scan-format_nat j))

  -- The map behind the loop from index `i` on.
  unfoldable pub mapped : ℕ → List String → Map String → Map String
  unfolding insert
  mapped i [] m = m
  mapped i (pattern ∷ patterns) m = mapped (suc i) patterns (insert pattern (queue_at i) m)

  pub mapped-append :
      (i : ℕ) (xs ys : List String) (m : Map String)
      → mapped i (xs ++ ys) m ≡ mapped (i + length xs) ys (mapped i xs m)
  unfolding mapped
  mapped-append i [] ys m = ap (λ n. mapped n ys m) (omega arith)
  mapped-append i (x ∷ xs) ys m =
      mapped-append (suc i) xs ys (insert x (queue_at i) m)
      ∙ ap (λ n. mapped n ys (mapped (suc i) xs (insert x (queue_at i) m))) (omega arith)

  pub mapped-IsMap : (i : ℕ) (xs : List String) (m : Map String) → IsMap m → IsMap (mapped i xs m)
  unfolding mapped
  mapped-IsMap i [] m h = h
  mapped-IsMap i (x ∷ xs) m h =
      mapped-IsMap (suc i) xs (insert x (queue_at i) m) (insert-IsMap x (queue_at i) m h)

  module _ (n : ℕ) where
    -- Who names the queue of index n is among the keys.
    abbrev Only : Map String → List String → Type 0
    Only m keys = (k : String) → lookup k m ≡ some (queue_at n) → Memᴰ k keys

    insert-Only :
        (i : ℕ) (x : String) (keys : List String) (m : Map String)
        → i ≢ n
        → Only m (x ∷ keys)
        → Only (insert x (queue_at i) m) keys
    insert-Only i x keys m ne only k h =
        tested (x == k) refl (sym (lookup-insert x k (queue_at i) m) ∙ h)
      where
        tested :
            (b : Bool)
            → (x == k) ≡ b
            → (if b then some (queue_at i) else lookup k m) ≡ some (queue_at n)
            → Memᴰ k keys
        tested true e h' = absurd (ne (queue_at-inj i n (some_inj h')))
        tested false e h' = behind (Memᴰ.cases_cons (only k h'))
          where
            behind : (k ≡ x) ⊎ Memᴰ k keys → Memᴰ k keys
            behind (inl same) = let other = (eq_iff x k).1 (sym same) in cc
            behind (inr i) = i

    insert-again :
        (i : ℕ) (p : String) (keys : List String) (m : Map String)
        → Memᴰ p keys
        → Only m []
        → Only (insert p (queue_at i) m) keys
    insert-again i p keys m again only k h =
        tested (p == k) refl (sym (lookup-insert p k (queue_at i) m) ∙ h)
      where
        tested :
            (b : Bool)
            → (p == k) ≡ b
            → (if b then some (queue_at i) else lookup k m) ≡ some (queue_at n)
            → Memᴰ k keys
        tested true e h' = subst (λ x. Memᴰ x keys) ((eq_iff p k).0 e) again
        tested false e h' = absurd (Memᴰ.not-nil (only k h'))

    mapped-Only :
        (i : ℕ) (keys : List String) (m : Map String)
        → n < i
        → Only m keys
        → Only (mapped i keys m) []
    unfolding mapped
    mapped-Only i [] m above only = only
    mapped-Only i (x ∷ keys) m above only =
        mapped-Only (suc i) keys (insert x (queue_at i) m) (omega arith)
          (insert-Only i x keys m (λ e. omega arith) only)

    mapped-below :
        (i : ℕ) (xs : List String) (m : Map String)
        → i + length xs ≤ n
        → Only m []
        → Only (mapped i xs m) []
    unfolding mapped
    mapped-below i [] m below only = only
    mapped-below i (x ∷ xs) m below only =
        mapped-below (suc i) xs (insert x (queue_at i) m) (omega arith)
          (insert-Only i x [] m (λ e. omega arith) (λ k h. Memᴰ.tail (only k h)))

    mapped-keeps :
        (i : ℕ) (p : String) (keys : List String) (m : Map String)
        → ¬ Memᴰ p keys
        → lookup p m ≡ some (queue_at n)
        → lookup p (mapped i keys m) ≡ some (queue_at n)
    unfolding mapped
    mapped-keeps i p [] m other h = h
    mapped-keeps i p (x ∷ keys) m other h =
        let ne : (x == p) ≡ false = str_ne x p (λ e. other (Memᴰ.head (sym e))) in
        mapped-keeps (suc i) p keys (insert x (queue_at i) m) (λ q. other (Memᴰ.tail q))
          (lookup-insert x p (queue_at i) m
            ∙ (ap (λ b. if b then some (queue_at i) else lookup p m) ne ∙ h))

  -- The queue of a pattern is named by the pattern, if that does not come again.
  pub lookup-last :
      (xs : List String) (p : String) (ys : List String)
      → ¬ Memᴰ p ys
      → lookup p (mapped 0 (xs ++ p ∷ ys) []) ≡ some (queue_at (length xs))
  unfolding mapped
  lookup-last xs p ys other =
      let before = mapped 0 xs [] in
      ap (lookup p) (mapped-append 0 xs (p ∷ ys) [])
      ∙ mapped-keeps (length xs) (suc (0 + length xs)) p ys _ other
          (lookup-insert_self p _ before ∙ ap (λ i. some (queue_at i)) (omega arith))

  -- If it does come again, nothing names the queue.
  pub lookup-repeated :
      (xs : List String) (p : String) (ys : List String) (k : String)
      → Memᴰ p ys
      → lookup k (mapped 0 (xs ++ p ∷ ys) []) ≢ some (queue_at (length xs))
  unfolding mapped lookup
  lookup-repeated xs p ys k again h =
      let n = length xs in
      let before = mapped 0 xs [] in
      let none_before : Only n before [] = mapped-below n 0 xs [] (omega arith) (λ k e. cc) in
      Memᴰ.not-nil (
        mapped-Only n (suc (0 + n)) ys (insert p (queue_at (0 + n)) before) (omega arith)
          (insert-again n (0 + n) p ys before again none_before) k
          (sym (ap (lookup k) (mapped-append 0 xs (p ∷ ys) [])) ∙ h))

  pub queue_at-named : (i : ℕ) → queue_at i ≢ ""
  unfolding pattern_queue
  queue_at-named i = holding "_" exchange_name "pattern" _
