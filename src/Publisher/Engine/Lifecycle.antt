-- ===== src/Publisher/Engine/Lifecycle.antt =====
-- The life of a publishing engine.
use expedit.Prelude.{
  ◌≡◌, refl, sym, ap, ◌∙◌, Option, none, some, List, [], ◌∷◌, ◌++◌, append_assoc, append-nil,
}
use expedit.Handler.{Run, Handler}
use expedit.Middleware.Chain.{Middleware, add}
use expedit.Middleware.Chain.Order.{nest, wrap-nest}
use expedit.Publisher.Engine.{PublishingEngine, new_publishing_engine, add_middleware, publish}

abbrev then_add :
    {W : Type 0} → Option (PublishingEngine W) → Middleware W → Option (PublishingEngine W)
then_add none m = none
then_add (some e) m = add_middleware m e

-- AddMiddleware for each middleware in turn; `none` if one of the calls panics.
abbrev pub add_each :
    {W : Type 0} → Option (PublishingEngine W) → List (Middleware W) → Option (PublishingEngine W)
add_each o [] = o
add_each o (m ∷ ms) = add_each (then_add o m) ms

-- An engine that has not published.
abbrev pub unstarted : {W : Type 0} → Handler W → List (Middleware W) → PublishingEngine W
unstarted p ms = record { publisher = p; mc = record { middlewares = ms }; handler_fn = none }

abbrev pub started : {W : Type 0} → Handler W → List (Middleware W) → PublishingEngine W
started p ms = record {
  publisher = p;
  mc = record { middlewares = ms };
  handler_fn = some (nest ms p);
}

module _ {W : Type 0} (p : Handler W) where
  add_each_lem :
      (before ms : List (Middleware W))
      → add_each (some (unstarted p before)) ms ≡ some (unstarted p (before ++ ms))
  unfolding add_middleware add
  add_each_lem before [] = ap (λ l. some (unstarted p l)) (sym (append-nil before))
  add_each_lem before (m ∷ ms) =
      add_each_lem (before ++ m ∷ []) ms
      ∙ ap (λ l. some (unstarted p l)) (append_assoc before (m ∷ []) ms)

  publish_first :
      (ms : List (Middleware W)) (s : Run W)
      → publish (unstarted p ms) s ≡ (started p ms, nest ms p s)
  unfolding publish
  publish_first ms s =
      ap (λ (h : Handler W). (record (unstarted p ms) { handler_fn = some h }, h s))
        (wrap-nest (record { middlewares = ms }) p)

  -- A new engine takes any middlewares, none of the calls of AddMiddleware panics. The first Publish sends its message through all of
  -- them, the first added outermost, to the publisher; from then on AddMiddleware panics, and every
  -- later Publish goes the same way and leaves the engine as it is.
  pub publish_nests :
      (ms : List (Middleware W)) (m : Middleware W) (s t : Run W)
      → (add_each (some (new_publishing_engine p)) ms ≡ some (unstarted p ms))
        × (publish (unstarted p ms) s ≡ (started p ms, nest ms p s))
        × (add_middleware m (started p ms) ≡ none)
        × (publish (started p ms) t ≡ (started p ms, nest ms p t))
  unfolding add_middleware publish new_publishing_engine
  publish_nests ms m s t = (add_each_lem [] ms, publish_first ms s, refl, refl)
