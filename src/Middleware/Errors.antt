-- ===== src/Middleware/Errors.antt =====
-- core/message/middleware/error.go.
pub mod Safety
use Prim.Native.String.{◌++◌}
use expedit.Prelude.{String}
use expedit.Go.Value.{Error, new, Value, err}
use expedit.Handler.{Ret, ok, failed, panicked, Handler}
use expedit.Middleware.Chain.{Middleware}

-- The error that a recovered value becomes; `sprint` is fmt's %v.
unfoldable pub recovered : (Value → String) → Value → Error
recovered sprint (err e) = e
recovered sprint v = new ("panic recovered: " ++ sprint v)

abbrev pub recover : {W : Type 0} → (Value → String) → Ret W (Unit {0}) → Ret W (Unit {0})
recover sprint (ok a s) = ok a s
recover sprint (failed e s) = failed e s
recover sprint (panicked v s) = failed (recovered sprint v) s

unfoldable pub convert_panic_to_error : {W : Type 0} → (Value → String) → Middleware W
convert_panic_to_error sprint next s = recover sprint (next s)

-- The callback's result is the state that it leaves; a panic of its own ends the call.
abbrev pub Callback : Type 0 → Type 0
Callback W = Error → Handler W

-- The callback has run: the handler's error is returned all the same.
abbrev still_failed : {W : Type 0} → Error → Ret W (Unit {0}) → Ret W (Unit {0})
still_failed e (ok a s) = failed e s
still_failed e (failed e' s) = failed e s
still_failed e (panicked v s) = panicked v s

abbrev report : {W : Type 0} → Callback W → Ret W (Unit {0}) → Ret W (Unit {0})
report handler (ok a s) = ok a s
report handler (panicked v s) = panicked v s
report handler (failed e s) = still_failed e (handler e s)

unfoldable pub on_error : {W : Type 0} → Callback W → Middleware W
on_error handler next s = report handler (next s)
