-- ===== src/Middleware/Errors/Safety.antt =====
-- What the error middlewares guarantee to what stands around them.
use expedit.Prelude.{◌≡◌, refl, false, Option, none, some, List, [], ◌∷◌, ◌++◌}
use expedit.Go.Value.{Error}
use expedit.Handler.{Run, Ret, ok, failed, panicked, Handler, final, panics, error_of}
use expedit.Middleware.Errors.{Callback, report, still_failed, on_error}

abbrev pub reports : Option Error → List Error
reports none = []
reports (some e) = e ∷ []

module _ {W : Type 0} (log : W → List Error) (handler : Callback W) where
  report_lem :
      (r : Ret W (Unit {0}))
      → ((e : Error) (s : Run W) → log (final (handler e s)).world ≡ e ∷ log s.world)
      → ((e : Error) (s : Run W) → panics (handler e s) ≡ false)
      → (error_of (report handler r) ≡ error_of r)
        × (panics (report handler r) ≡ panics r)
        × (log (final (report handler r)).world ≡ reports (error_of r) ++ log (final r).world)
  report_lem (ok a s) h k = (refl, refl, refl)
  report_lem (panicked v s) h k = (refl, refl, refl)
  report_lem (failed e s) h k = called (handler e s) (h e s) (k e s)
    where
      called :
          (x : Ret W (Unit {0}))
          → log (final x).world ≡ e ∷ log s.world
          → panics x ≡ false
          → (error_of (still_failed e x) ≡ some e)
            × (panics (still_failed e x) ≡ false)
            × (log (final (still_failed e x)).world ≡ e ∷ log s.world)
      called (ok a t) l p = (refl, refl, l)
      called (failed e' t) l p = (refl, refl, l)
      called (panicked v t) l p = cc

  -- OnError passes the handler's result on unchanged, an error and a panic too, and calls its callback
  -- once, with the error, exactly if the handler returns one. The callback writes to the log what it
  -- is called with, and does not panic.
  pub on_error_transparent :
      (next : Handler W) (s : Run W)
      → ((e : Error) (t : Run W) → log (final (handler e t)).world ≡ e ∷ log t.world)
      → ((e : Error) (t : Run W) → panics (handler e t) ≡ false)
      → (error_of (on_error handler next s) ≡ error_of (next s))
        × (panics (on_error handler next s) ≡ panics (next s))
        × (log (final (on_error handler next s)).world
            ≡ reports (error_of (next s)) ++ log (final (next s)).world)
  unfolding on_error
  on_error_transparent next s h k = report_lem (next s) h k
