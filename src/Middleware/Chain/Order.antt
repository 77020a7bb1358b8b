-- ===== src/Middleware/Chain/Order.antt =====
-- The order in which a chain applies its middlewares.
use expedit.Prelude.{
  ℕ, zero, suc, ◌≡◌, refl, sym, ap, ◌∙◌, List, [], ◌∷◌, ◌++◌, length, take, take-length,
}
use expedit.Handler.{Handler}
use expedit.Middleware.Chain.{Middleware, Chain, add, apply_at, wrap_from, wrap}

-- The composition that the loop is meant to compute.
abbrev pub nest : {W : Type 0} → List (Middleware W) → Handler W → Handler W
nest [] h = h
nest (m ∷ ms) h = m (nest ms h)

module _ {W : Type 0} where
  pub nest-append :
      (ms ns : List (Middleware W)) (h : Handler W) → nest (ms ++ ns) h ≡ nest ms (nest ns h)
  nest-append [] ns h = refl
  nest-append (m ∷ ms) ns h = ap m (nest-append ms ns h)

  nest-take-suc :
      (ms : List (Middleware W)) (i : ℕ) (h : Handler W)
      → nest (take i ms) (apply_at ms i h) ≡ nest (take (suc i) ms) h
  nest-take-suc [] zero h = refl
  nest-take-suc [] (suc i) h = refl
  nest-take-suc (m ∷ ms) zero h = refl
  nest-take-suc (m ∷ ms) (suc i) h = ap m (nest-take-suc ms i h)

  wrap_from-nest :
      (ms : List (Middleware W)) (i : ℕ) (h : Handler W) → wrap_from ms i h ≡ nest (take i ms) h
  unfolding wrap_from
  wrap_from-nest ms zero h = refl
  wrap_from-nest ms (suc i) h = wrap_from-nest ms i (apply_at ms i h) ∙ nest-take-suc ms i h

  pub wrap-nest : (c : Chain W) (h : Handler W) → wrap c h ≡ nest c.middlewares h
  unfolding wrap
  wrap-nest c h =
      wrap_from-nest c.middlewares (length c.middlewares) h
      ∙ ap (λ ms. nest ms h) (take-length c.middlewares)

  -- Wrapping with a chain nests its middlewares with the first one outermost, and a middleware that
  -- is added becomes the innermost: it sees the handler before all the others do.
  pub wrap-add :
      (c : Chain W) (m : Middleware W) (h : Handler W)
      → (wrap c h ≡ nest c.middlewares h) × (wrap (add m c) h ≡ wrap c (m h))
  unfolding add
  wrap-add c m h = (
    wrap-nest c h,
    wrap-nest (add m c) h ∙ nest-append c.middlewares (m ∷ []) h ∙ sym (wrap-nest c (m h)),
  )
