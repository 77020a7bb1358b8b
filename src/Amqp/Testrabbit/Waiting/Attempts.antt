-- ===== src/Amqp/Testrabbit/Waiting/Attempts.antt =====
-- The attempts of retryOperation, and how long they take.
use expedit.Prelude.{
  ℕ, zero, suc, ◌+◌, ◌-◌, ◌*◌, ◌<◌, ◌≡◌, refl, ap, ◌∙◌, sym, String, Option, none, some, arith,
  subst, ltb, ◌=?◌, if◌then◌else◌, true, false,
}
use expedit.Go.Value.{Error, ℤ, pos_part}
use expedit.Amqp.Testrabbit.{Env, Outcome, done, failing, panicking, Action, millisecond, pass}
use expedit.Amqp.Testrabbit.Waiting.{attempts, retried, pause, retry_operation, retries_error}

-- The sleep of an attempt that has others behind it: 50 milliseconds times its number, from one.
abbrev pub slept_behind : {W : Type 0} → ℕ → ℕ → Env W → Env W
slept_behind max_retries i e =
    if ltb (suc i) max_retries then record e { now = e.now + 50 * millisecond * suc i } else e

pause-slept_behind :
    {W : Type 0} (max_retries i n : ℕ) (e : Env W)
    → i + suc n ≡ max_retries
    → pause i n e ≡ slept_behind max_retries i e
pause-slept_behind max_retries i zero e h =
    let last : ltb (suc i) max_retries ≡ false = ground arith in rw last refl
pause-slept_behind max_retries i (suc n) e h =
    let others : ltb (suc i) max_retries ≡ true = ground arith in
    let same : (i + 1) * (50 * millisecond) ≡ 50 * millisecond * suc i = omega arith in
    let some_left : (suc n =? 0) ≡ false = ground arith in
    rw (others, some_left) (ap (λ d. pass d e) same)

module _ {W : Type 0} (operation : Action W (Unit {0})) (max_retries : ℕ) where
  -- So many attempts have failed since `e`, the last with that error, and the next one would begin at
  -- the state of the index.
  pub data Tried (e : Env W) : ℕ → Option Error → Env W → Type 0 where
    untried : Tried e 0 none e
    again :
        (i : ℕ) {last : Option Error} {u v : Env W} (err : Error)
        → Tried e i last u
        → operation u ≡ failing err v
        → Tried e (suc i) (some err) (slept_behind max_retries i v)

  abbrev pub Tries : (Option Error → Error) → Env W → Outcome W (Unit {0}) → Type 0
  Tries report e (done r t) =
      (i : ℕ) × (last : Option Error) × (u : Env W) × (i < max_retries)
      × Tried e i last u
      × (operation u ≡ done tt t)
  Tries report e (failing err t) =
      (last : Option Error) × Tried e max_retries last t × (err ≡ report last)
  Tries report e (panicking err t) =
      (i : ℕ) × (last : Option Error) × (u : Env W) × (i < max_retries)
      × Tried e i last u
      × (operation u ≡ panicking err t)

  attempts-Tries :
      (report : Option Error → Error) (e u : Env W) (i attempts_left : ℕ) (last : Option Error)
      → i + attempts_left ≡ max_retries
      → Tried e i last u
      → Tries report e (attempts operation report i attempts_left last u)
  unfolding attempts
  attempts-Tries report e u i zero last sum tried =
      let all : i ≡ max_retries = omega arith in
      (last, subst (λ n. Tried e n last u) all tried, refl)
  attempts-Tries report e u i (suc n) last sum tried =
      tested (operation u) refl
        (λ err v t. attempts-Tries report e (pause i n v) (suc i) n (some err) (omega arith) t)
    where
      next : Error → Action W (Unit {0})
      next err v = attempts operation report (suc i) n (some err) (pause i n v)

      tested :
          (o : Outcome W (Unit {0}))
          → operation u ≡ o
          → ((err : Error) (v : Env W)
              → Tried e (suc i) (some err) (pause i n v)
              → Tries report e (next err v))
          → Tries report e (retried next o)
      tested (done r v) q rest = (i, last, u, omega arith, tried, q)
      tested (failing err v) q rest = rest err v (
          subst (Tried e (suc i) (some err)) (sym (pause-slept_behind max_retries i n v sum))
            (again i err tried q))
      tested (panicking err v) q rest = (i, last, u, omega arith, tried, q)

module _ {W : Type 0} where
  -- retryOperation returns nil just behind the first attempt that succeeds, behind fewer failures than
  -- `maxRetries`. It returns an error only behind `maxRetries` failures, and the error wraps the last
  -- one. Behind the n-th failure, counted from one, it sleeps for n times 50 milliseconds, and
  -- behind the last attempt not at all. It panics only if an attempt does.
  pub retry_operation-Tries :
      (operation : Action W (Unit {0})) (max_retries : ℤ) (description : String) (e : Env W)
      → Tries operation
          (pos_part max_retries)
          (retries_error max_retries description)
          e
          (retry_operation operation max_retries description e)
  unfolding retry_operation
  retry_operation-Tries operation max_retries description e =
      attempts-Tries operation (pos_part max_retries) (retries_error max_retries description) e e 0
        (pos_part max_retries) none (omega arith) untried

-- The sum of the first sleeps.
abbrev slept : ℕ → ℕ
slept zero = 0
slept (suc n) = slept n + 50 * millisecond * suc n

slept-square : (n : ℕ) → slept n ≡ 25 * millisecond * (n * (n + 1))
slept-square zero = refl
slept-square (suc n) = grind (arith, slept-square n)

module _ {W : Type 0} (operation : Action W (Unit {0})) (max_retries took : ℕ) (e : Env W)
    (takes : (u v : Env W) (err : Error) → operation u ≡ failing err v → v.now ≡ u.now + took) where
  Tried-now :
      {i : ℕ} {last : Option Error} {u : Env W}
      → Tried operation max_retries e i last u
      → i < max_retries
      → u.now ≡ e.now + i * took + slept i
  Tried-now untried h = omega arith
  Tried-now (again i {u = u} {v = v} err tried q) h =
      let before = Tried-now tried (omega arith) in
      let failed_at = takes u v err q in
      let turn : suc i * took ≡ took + i * took = grind arith in ground arith

  -- Behind the last attempt there is no sleep.
  Tried-all :
      {i : ℕ} {last : Option Error} {u : Env W}
      → Tried operation max_retries e i last u
      → i ≡ max_retries
      → u.now ≡ e.now + i * took + slept (i - 1)
  Tried-all untried h = omega arith
  Tried-all (again i {u = u} {v = v} err tried q) h =
      let before = Tried-now tried (omega arith) in
      let failed_at = takes u v err q in
      let turn : suc i * took ≡ took + i * took = grind arith in
      let earlier : suc i - 1 ≡ i = omega arith in
      let none_left : ltb (suc i) max_retries ≡ false = ground arith in
      rw (none_left, earlier) (omega arith)

module _ {W : Type 0} where
  -- If each failing attempt takes the same time, then a retryOperation that fails behind n attempts has
  -- taken n times that time, and 25 milliseconds times n times (n - 1) for the sleeps: their sum grows
  -- with the square of the number of attempts.
  pub retry_operation-duration :
      (operation : Action W (Unit {0})) (max_retries : ℤ) (description : String) (took : ℕ)
      (e t : Env W) (err : Error)
      → ((u v : Env W) (x : Error) → operation u ≡ failing x v → v.now ≡ u.now + took)
      → retry_operation operation max_retries description e ≡ failing err t
      → let n = pos_part max_retries in t.now ≡ e.now + n * took + 25 * millisecond * (n * (n - 1))
  retry_operation-duration operation max_retries description took e t err takes h =
      let n = pos_part max_retries in
      let (last, tried, shown) =
        subst (Tries operation n (retries_error max_retries description) e) h
          (retry_operation-Tries operation max_retries description e) in
      let now = Tried-all operation n took e takes tried refl in
      now ∙ ap (λ x. e.now + n * took + x) (slept_before n)
    where
      slept_before : (n : ℕ) → slept (n - 1) ≡ 25 * millisecond * (n * (n - 1))
      slept_before zero = refl
      slept_before (suc n) =
          let earlier : suc n - 1 ≡ n = omega arith in rw earlier (slept-square n ∙ grind arith)
