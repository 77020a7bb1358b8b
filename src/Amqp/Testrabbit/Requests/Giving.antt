-- ===== src/Amqp/Testrabbit/Requests/Giving.antt =====
-- What an action gives that returns, and the requests that it has made.
use Prim.Native.String.{◌++◌ as ◌<>◌}
use expedit.Prelude.{
  ℕ, ◌+◌, ◌≡◌, ◌≢◌, refl, sym, ap, ◌∙◌, String, true, false, List, [], ◌∷◌, ◌++◌, append_assoc,
  append-nil, ◌⊎◌, inl, inr,
}
use expedit.Go.Value.{Error, pos, wrap}
use expedit.Amqp.Testrabbit.{
  Env, Outcome, done, failing, panicking, Action, and_then, left, panic_on, or_panic, or_panic_with,
  Op, resulting, call, Channel,
}
use expedit.Amqp.Testrabbit.Waiting.{retry_operation, declare_bound}
use expedit.Amqp.Testrabbit.Exchange.{declare_exchange}
use expedit.Amqp.Testrabbit.Requests.{Request, declared, exchange_declared, noted, log_of, noting}
use expedit.Amqp.Testrabbit.Requests.Logging.{
  Log, call-IsQuiet, panic_on-log, retry_operation-IsQuiet,
}

module _ {W : Type 0} where
  -- An action that began at `e` has returned a value, and has made requests, of which P holds; or it has
  -- not returned.
  abbrev pub Gives :
      {A : Type 0} → (A → List Request → Type 0) → Env (Log W) → Outcome (Log W) A → Type 0
  Gives P e (done a t) = (rs : List Request) × (log_of t ≡ log_of e ++ rs) × P a rs
  Gives P e (failing err t) = Unit
  Gives P e (panicking err t) = Unit

  pub imp-Gives :
      {A : Type 0} {P Q : A → List Request → Type 0} (e : Env (Log W)) (o : Outcome (Log W) A)
      → ((a : A) (rs : List Request) → P a rs → Q a rs)
      → Gives P e o
      → Gives Q e o
  imp-Gives e (done a t) f (rs, q, p) = (rs, q, f a rs p)
  imp-Gives e (failing err t) f g = tt
  imp-Gives e (panicking err t) f g = tt

  shifted :
      {A : Type 0} (P : A → List Request → Type 0) (rs : List Request) (e t : Env (Log W))
      (o : Outcome (Log W) A)
      → log_of t ≡ log_of e ++ rs
      → Gives (λ a ss. P a (rs ++ ss)) t o
      → Gives P e o
  shifted P rs e t (done a u) q (ss, q', p) =
      (rs ++ ss, q' ∙ (ap (λ x. x ++ ss) q ∙ append_assoc (log_of e) rs ss), p)
  shifted P rs e t (failing err u) q g = tt
  shifted P rs e t (panicking err u) q g = tt

  pub then-Gives :
      {A B : Type 0} (P : A → List Request → Type 0) (Q : B → List Request → Type 0)
      (e : Env (Log W)) (o : Outcome (Log W) A) (f : A → Action (Log W) B)
      → Gives P e o
      → ((a : A) (rs : List Request) (t : Env (Log W))
          → P a rs
          → Gives (λ b ss. Q b (rs ++ ss)) t (f a t))
      → Gives Q e (and_then o f)
  then-Gives P Q e (done a t) f (rs, q, p) g = shifted Q rs e t (f a t) q (g a rs t p)
  then-Gives P Q e (failing err t) f x g = tt
  then-Gives P Q e (panicking err t) f x g = tt

  -- An action that makes no request, and one behind it.
  pub quietly-Gives :
      {A B : Type 0} (Q : B → List Request → Type 0) (e : Env (Log W)) (o : Outcome (Log W) A)
      (f : A → Action (Log W) B)
      → log_of (left o) ≡ log_of e
      → ((a : A) (t : Env (Log W)) → Gives Q t (f a t))
      → Gives Q e (and_then o f)
  quietly-Gives Q e (done a t) f q g =
      shifted Q [] e t (f a t) (q ∙ sym (append-nil (log_of e))) (g a t)
  quietly-Gives Q e (failing err t) f q g = tt
  quietly-Gives Q e (panicking err t) f q g = tt

-- A queue has the name that was asked for, if that is not empty.
abbrev pub KeepsNames : {W D : Type 0} → Channel W D → Type 0
KeepsNames {W} channel =
    (q x : String) (now : ℕ) (w : W)
    → q ≢ ""
    → (channel.queue_declare q true false false false now w).result ≡ inr x
    → x ≡ q

module _ {W D : Type 0} (channel : Channel W D) where
  named :
      (rs : List Request) (op : Op W String) (q : String) (e : Env (Log W))
      → ((x : String) → (op e.now e.world.0).result ≡ inr x → x ≡ q)
      → Gives (λ x ss. (x ≡ q) × (ss ≡ rs)) e (or_panic (call (noted rs op)) e)
  named rs op q e keeps = replied (op e.now e.world.0).result keeps
    where
      behind : Env (Log W)
      behind = record e {
        world = ((op e.now e.world.0).world, log_of e ++ rs);
        now = e.now + (op e.now e.world.0).took;
      }

      replied :
          (r : Error ⊎ String)
          → ((x : String) → r ≡ inr x → x ≡ q)
          → Gives (λ x ss. (x ≡ q) × (ss ≡ rs)) e (panic_on (λ err. err) (resulting r behind))
      replied (inl err) k = tt
      replied (inr x) k = (rs, refl, (k x refl, refl))

  pub declare_bound-Gives :
      (full_queue_name : String) (bind : String → Op W (Unit {0})) (description : String → String)
      (e : Env (Log W))
      → KeepsNames channel
      → full_queue_name ≢ ""
      → Gives
          (λ x ss. (x ≡ full_queue_name) × (ss ≡ declared full_queue_name ∷ []))
          e
          (declare_bound
            (noting channel)
            full_queue_name
            (λ q. call (noted [] (bind q)))
            description
            e)
  unfolding declare_bound noting
  declare_bound-Gives name bind description e keeps ne =
      then-Gives Gained Gained e
        (or_panic (call ((noting channel).queue_declare name true false false false)) e) _
        (named rs (channel.queue_declare name true false false false) name e
          (λ x. keeps name x e.now e.world.0 ne))
        (λ queue ss t (same, one).
          quietly-Gives (λ x us. Gained x (ss ++ us)) t (or_panic (retried queue) t) _
            (panic_on-log (λ err. err) (retried queue t)
              ∙ retry_operation-IsQuiet (call (noted [] (bind queue))) (pos 3) (description queue)
                  (call-IsQuiet (bind queue)) t)
            (λ r u.
              quietly-Gives (λ x us. Gained x (ss ++ us)) u
                (or_panic_with (verifying queue) (looked queue) u) _
                (panic_on-log (verifying queue) (looked queue u)
                  ∙ call-IsQuiet (channel.queue_declare_passive queue false false false false) u)
                (λ x v. ([], sym (append-nil (log_of v)), (same, append-nil ss ∙ one)))))
    where
      rs : List Request
      rs = declared name ∷ []

      Gained : String → List Request → Type 0
      Gained x ss = (x ≡ name) × (ss ≡ rs)

      retried : String → Action (Log W) (Unit {0})
      retried queue = retry_operation (call (noted [] (bind queue))) (pos 3) (description queue)

      verifying : String → Error → Error
      verifying queue = wrap ("failed to verify queue " <> queue)

      looked : String → Action (Log W) String
      looked queue = call (noted [] (channel.queue_declare_passive queue false false false false))

  pub declare_exchange-Gives :
      (exchange kind : String) (e : Env (Log W))
      → Gives
          (λ x rs. rs ≡ exchange_declared exchange ∷ [])
          e
          (declare_exchange (noting channel) exchange kind e)
  unfolding declare_exchange noting
  declare_exchange-Gives exchange kind e =
      replied (channel.exchange_declare exchange kind true false false false e.now e.world.0).result
    where
      rs : List Request
      rs = exchange_declared exchange ∷ []

      replied :
          (r : Error ⊎ Unit {0})
          → Gives
              (λ x ss. ss ≡ rs)
              e
              (panic_on
                (λ err. err)
                (resulting r (record e {
                  world = (
                    (channel.exchange_declare exchange kind true false false false e.now
                        e.world.0).world,
                    log_of e ++ rs,
                  );
                  now =
                      e.now
                      + (channel.exchange_declare exchange kind true false false false e.now
                          e.world.0).took;
                })))
      replied (inl err) = tt
      replied (inr x) = (rs, refl, refl)
