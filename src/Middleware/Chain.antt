-- ===== src/Middleware/Chain.antt =====
-- core/message/middleware/middleware.go and chain.go.
pub mod Order
use expedit.Prelude.{ℕ, zero, suc, Option, none, some, List, [], ◌∷◌, ◌++◌, length, get_elem?}
use expedit.Handler.{Handler}

abbrev pub Middleware : Type 0 → Type 0
Middleware W = Handler W → Handler W

pub record Chain (W : Type 0) : Type 0 where
  pub middlewares : List (Middleware W)

unfoldable pub new_chain : {W : Type 0} → Chain W
new_chain = record { middlewares = [] }

unfoldable pub add : {W : Type 0} → Middleware W → Chain W → Chain W
add m c = record { middlewares = c.middlewares ++ m ∷ [] }

-- `c.middlewares[i](final)`; the loop only reads indices in range.
abbrev apply_to : {W : Type 0} → Option (Middleware W) → Handler W → Handler W
apply_to none h = h
apply_to (some m) h = m h

abbrev apply_at : {W : Type 0} → List (Middleware W) → ℕ → Handler W → Handler W
apply_at ms i h = apply_to (get_elem? ms i) h

-- The loop of `Wrap`, with `i` rounds left.
wrap_from : {W : Type 0} → List (Middleware W) → ℕ → Handler W → Handler W
wrap_from ms zero h = h
wrap_from ms (suc i) h = wrap_from ms i (apply_at ms i h)

unfoldable pub wrap : {W : Type 0} → Chain W → Handler W → Handler W
unfolding wrap_from
wrap c h = wrap_from c.middlewares (length c.middlewares) h
