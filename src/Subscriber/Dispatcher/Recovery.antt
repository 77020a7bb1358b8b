-- ===== src/Subscriber/Dispatcher/Recovery.antt =====
-- ConvertPanicToError in front of the handler of a Dispatcher.
use expedit.Prelude.{◌≡◌, refl, ap, ◌∙◌, false, List, [], ◌∷◌, String}
use expedit.Go.Value.{Value}
use expedit.Handler.{Run, Ret, ok, failed, panicked, Handler, panics}
use expedit.Middleware.Errors.{recover, convert_panic_to_error}
use expedit.Subscriber.Dispatcher.{Delivery, Dispatcher, handle}
use expedit.Subscriber.Dispatcher.Contexts.{given}
use expedit.Subscriber.Dispatcher.Settlement.{
  Event, acked, nacked, Observes, log_of, verdict, handle_settles_once,
}

recover-verdict :
    {W : Type 0} (sprint : Value → String) (r : Ret W (Unit {0}))
    → (verdict (recover sprint r) ≡ verdict r) × (panics (recover sprint r) ≡ false)
recover-verdict sprint (ok a s) = (refl, refl)
recover-verdict sprint (failed e s) = (refl, refl)
recover-verdict sprint (panicked v s) = (refl, refl)

-- A Dispatcher whose handler is inside ConvertPanicToError never panics on a delivery; the delivery is
-- acked once if the inner handler returns nil, and nacked once if it returns an error or panics.
pub recovered_settles :
    {W : Type 0} (log : W → List Event) (d : Dispatcher W) (delivery : Delivery W) (s : Run W)
    (sprint : Value → String) (next : Handler W)
    → Observes log (acked ∷ []) (nacked ∷ []) d delivery
    → d.handler ≡ convert_panic_to_error sprint next
    → (panics (handle d delivery s) ≡ false)
      × (log_of log (handle d delivery s) ≡ verdict (next (given d delivery s)) ∷ log s.world)
unfolding convert_panic_to_error
recovered_settles log d delivery s sprint next o e =
    let (logged, same) = handle_settles_once log d delivery s o in
    let here = ap (λ h. h (given d delivery s)) e in
    let (kept, safe) = recover-verdict sprint (next (given d delivery s)) in
    (
      same ∙ ap panics here ∙ safe,
      logged ∙ ap (λ r. verdict r ∷ log s.world) here ∙ ap (λ v. v ∷ log s.world) kept,
    )
