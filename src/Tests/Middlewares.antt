-- ===== src/Tests/Middlewares.antt =====
-- Middlewares at concrete inputs.
use expedit.Prelude.{ℕ, ◌+◌, ◌*◌, ◌<◌, ◌≡◌, refl, some, List, [], ◌∷◌, ◌++◌, arith}
use expedit.Go.Value.{Error, new, nil}
use expedit.Go.Context.{background}
use expedit.Message.{Message}
use expedit.Handler.{Run, ok, failed, Handler, final}
use expedit.Middleware.Chain.{Middleware, Chain, add, wrap}
use expedit.Middleware.Errors.{Callback}
use expedit.Middleware.Flow.Throttle.{Ticker}
use expedit.Middleware.Flow.Throttle.Rate.{call, calls, throttle_rate}

abbrev empty : Message
empty = record { id = ""; metadata = some []; payload = nil; ctx = background }

abbrev at_rest : {W : Type 0} → W → Run W
at_rest w = record { message = empty; world = w; now = 0; next_scope = 0; cancelled = [] }

-- A middleware that writes its number to the world.
abbrev tag : ℕ → Middleware (List ℕ)
tag n next s = next (record s { world = s.world ++ n ∷ [] })

abbrev two : Chain (List ℕ)
two = record { middlewares = tag 1 ∷ tag 2 ∷ [] }

abbrev done : Handler (List ℕ)
done s = ok tt s

tags_in_order : final (wrap (add (tag 3) two) done (at_rest [])) ≡ at_rest (1 ∷ 2 ∷ 3 ∷ [])
unfolding wrap add
tags_in_order = refl

abbrev fails : Handler (List Error)
fails s = failed (new "boom") s

abbrev noting : Callback (List Error)
noting e s = ok tt (record s { world = e ∷ s.world })

abbrev ticking : Run Ticker
ticking = at_rest (record { next = 5; period = 5 })

throttle_rate_example :
    (call ticking 0).now + ticking.world.period * 2 < (calls ticking (0 ∷ 1 ∷ 0 ∷ 30 ∷ [])).now
throttle_rate_example = throttle_rate ticking 0 1 (0 ∷ 30 ∷ []) (omega arith)
