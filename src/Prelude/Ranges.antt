-- ===== src/Prelude/Ranges.antt =====
-- `for k, v := range m { … out[k2] = v2 … }`: the loop that fills a map from another.
use Prim.Native.String.{String}
use mathlib.Core.Path.{◌≡◌, refl, ap, ◌∙◌, subst}
use mathlib.Core.Bool.{Bool, true, false}
use mathlib.Core.Option.{Option, none, some}
use mathlib.Core.List.{[], ◌∷◌}
use native.Mathlib.Omega.{arith}
use text.Mathlib.TextEquality.{eq_iff}
use text.Mathlib.TextPositions.{eq_refl}
use expedit.Prelude.Tests.{◌==◌, if◌then◌else◌, some_inj}
use expedit.Prelude.Maps.{Map, lookup, insert, IsMap, lookup-insert, insert-IsMap}

module _ {κ} {W : Type κ} where
  abbrev put : Option (String × W) → Map W → Map W
  put none out = out
  put (some (key, value)) out = insert key value out

  -- What a read of `key` finds behind a write of `written`.
  abbrev pub read_back : String → Option (String × W) → Option W → Option W
  read_back key none before = before
  read_back key (some (other, value)) before = if other == key then some value else before

module _ {ℓ κ} {V : Type ℓ} {W : Type κ} where
  -- The body of the loop writes what `f` makes of an entry, if it makes something of it.
  unfoldable pub collect : (String → V → Option (String × W)) → Map V → Map W → Map W
  collect f [] out = out
  collect f ((key, value) ∷ rest) out = collect f rest (put (f key value) out)

  abbrev pub read_from : (V → Option (String × W)) → String → Option V → Option W → Option W
  read_from f key none before = before
  read_from f key (some value) before = read_back key (f value) before

  pub collect-IsMap :
      (f : String → V → Option (String × W)) (m : Map V) (out : Map W)
      → IsMap out
      → IsMap (collect f m out)
  unfolding collect
  collect-IsMap f [] out h = h
  collect-IsMap f ((key, value) ∷ rest) out h =
      collect-IsMap f rest (put (f key value) out) (put-IsMap (f key value))
    where
      put-IsMap : (o : Option (String × W)) → IsMap (put o out)
      put-IsMap none = h
      put-IsMap (some (k, v)) = insert-IsMap k v out h

  -- Where each key of the result has one source key, the order of the loop does not matter.
  module _ (f : String → V → Option (String × W)) (source : String → String)
      (sourced : (key other : String) (value : V) (w : W)
        → f key value ≡ some (other, w)
        → key ≡ source other) where
    lookup-put :
        (key : String) (o : Option (String × W)) (out : Map W)
        → lookup key (put o out) ≡ read_back key o (lookup key out)
    lookup-put key none out = refl
    lookup-put key (some (other, value)) out = lookup-insert other key value out

    -- The key's source is not the entry at hand: the entry does not touch the key.
    untouched :
        (key at : String) (value : V) (o : Option (String × W)) (before : Option W)
        → f at value ≡ o
        → (at == source key) ≡ false
        → read_back key o before ≡ before
    untouched key at value none before e n = refl
    untouched key at value (some (other, w)) before e n =
        let s = sourced at other value w e in
        ground (arith, eq_iff at (source key), eq_iff other key, ap source, s)

    pub lookup-collect :
        (key : String) (m : Map V) (out : Map W)
        → IsMap m
        → lookup key (collect f m out)
          ≡ read_from (f (source key)) key (lookup (source key) m) (lookup key out)
    unfolding lookup collect
    lookup-collect key [] out h = refl
    lookup-collect key ((at, value) ∷ rest) out h =
        lookup-collect key rest (put (f at value) out) h.1
        ∙ (ap (read_from (f (source key)) key (lookup (source key) rest))
              (lookup-put key (f at value) out)
            ∙ step (at == source key) refl)
      where
        step :
            (b : Bool)
            → (at == source key) ≡ b
            → read_from
                (f (source key))
                key
                (lookup (source key) rest)
                (read_back key (f at value) (lookup key out))
              ≡ read_from
                  (f (source key))
                  key
                  (if b then some value else lookup (source key) rest)
                  (lookup key out)
        step true e =
            let same = (eq_iff at (source key)).0 e in
            ap
              (λ (o : Option V).
                read_from (f (source key)) key o (read_back key (f at value) (lookup key out)))
              (subst (λ k. lookup k rest ≡ none) same h.0)
            ∙ ap (λ k. read_back key (f k value) (lookup key out)) same
        step false e =
            ap (read_from (f (source key)) key (lookup (source key) rest))
              (untouched key at value (f at value) (lookup key out) refl e)

  -- A loop that keeps the keys.
  pub lookup-collect_kept :
      (g : V → W) (key : String) (m : Map V) {v : V}
      → IsMap m
      → lookup key m ≡ some v
      → lookup key (collect (λ k x. some (k, g x)) m []) ≡ some (g v)
  unfolding lookup
  lookup-collect_kept g key m h e =
      lookup-collect (λ k x. some (k, g x)) (λ k. k) (λ k other x w s. ap first (some_inj s)) key m
        [] h
      ∙ (ap (λ o. read_from (λ x. some (key, g x)) key o none) e ∙ rw (eq_refl key) refl)
    where
      first : String × W → String
      first (k, x) = k
