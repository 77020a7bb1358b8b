-- ===== src/Amqp/Testrabbit/Requests/Deleting.antt =====
-- The requests of Delete.
use Prim.Native.Char.{Char}
use Prim.Native.String.{[] as empty, ◌∷◌ as ◌<∷>◌, ◌++◌ as ◌<>◌}
use expedit.Prelude.{
  ◌+◌, ◌≡◌, ◌≢◌, refl, sym, ap, ◌∙◌, String, Bool, true, false, List, [], ◌∷◌, ◌++◌, append_assoc,
  append-nil, map, Map, ◌⊎◌, inl, inr, ◌==◌, if◌then◌else◌, str_ne, some, some_inj, lookup, IsMap,
  eq_refl, eq_iff, arith,
}
use mathlib.Core.List.{Memᴰ}
use mathlib.Core.List.Memᴰ
use expedit.Go.Value.{Error}
use text.Mathlib.TextLemmas.{nil-append, cons-append}
use expedit.Amqp.Testrabbit.{
  Env, done, Action, ◌>>◌, and_then, warn_on, warn, or_warn, Warning, routed_queue_not_deleted, Op,
  resulting, call, Channel,
}
use expedit.Amqp.Testrabbit.Exchange.{delete_routed, delete_exchange, delete_mapped, queues_of}
use expedit.Amqp.Testrabbit.Requests.{Request, deleted, exchange_deleted, noted, log_of, noting}
use expedit.Amqp.Testrabbit.Requests.Logging.{Log}

-- The action returns and makes these requests.
abbrev pub Does : {W : Type 0} → Action (Log W) (Unit {0}) → Env (Log W) → List Request → Type 0
Does {W} m e rs = (t : Env (Log W)) × (m e ≡ done tt t) × (log_of t ≡ log_of e ++ rs)

module _ {W : Type 0} where
  pub then-Does :
      (m k : Action (Log W) (Unit {0})) (e : Env (Log W)) (rs ss : List Request)
      → Does m e rs
      → ((t : Env (Log W)) → Does k t ss)
      → Does (m >> k) e (rs ++ ss)
  then-Does m k e rs ss (t, q, l) rest =
      let (u, q', l') = rest t in
      (
        u,
        ap (λ o. and_then o (λ a. k)) q ∙ q',
        l' ∙ (ap (λ x. x ++ ss) l ∙ append_assoc (log_of e) rs ss),
      )

  pub warned-Does :
      {A : Type 0} (f : Error → Warning) (rs : List Request) (op : Op W A) (e : Env (Log W))
      → Does (or_warn f (call (noted rs op))) e rs
  warned-Does f rs op e = replied (op e.now e.world.0).result
    where
      behind : Env (Log W)
      behind = record e {
        world = ((op e.now e.world.0).world, log_of e ++ rs);
        now = e.now + (op e.now e.world.0).took;
      }

      replied :
          {A : Type 0} (r : Error ⊎ A)
          → (t : Env (Log W)) × (warn_on f (resulting r behind) ≡ done tt t)
            × (log_of t ≡ log_of e ++ rs)
      replied (inl err) = (warn (f err) behind, refl, refl)
      replied (inr a) = (behind, refl, refl)

module _ {W D : Type 0} (channel : Channel W D) where
  delete_routed-Does :
      (m : Map String) (e : Env (Log W))
      → Does (delete_routed (noting channel) m) e (map deleted (queues_of m))
  unfolding delete_routed noting
  delete_routed-Does [] e = (e, refl, sym (append-nil (log_of e)))
  delete_routed-Does (entry ∷ rest) e =
      then-Does
        (or_warn (routed_queue_not_deleted entry.1 entry.0)
          (call ((noting channel).queue_delete entry.1 false false false)))
        (delete_routed (noting channel) rest) e (deleted entry.1 ∷ [])
        (map deleted (queues_of rest))
        (warned-Does (routed_queue_not_deleted entry.1 entry.0) (deleted entry.1 ∷ [])
          (channel.queue_delete entry.1 false false false) e)
        (delete_routed-Does rest)

  pub delete_exchange-Does :
      (exchange : String) (e : Env (Log W))
      → Does (delete_exchange (noting channel) exchange) e (exchange_deleted exchange ∷ [])
  unfolding delete_exchange noting
  delete_exchange-Does exchange e =
      warned-Does _ (exchange_deleted exchange ∷ []) (channel.exchange_delete exchange false false)
        e

  -- Delete of an exchange that has a name.
  abbrev pub deletions : String → List String → List Request
  deletions exchange queues = map deleted queues ++ exchange_deleted exchange ∷ []

  pub delete_mapped-Does :
      (exchange : String) (m : Map String) (e : Env (Log W))
      → exchange ≢ ""
      → Does (delete_mapped (noting channel) exchange m) e (deletions exchange (queues_of m))
  unfolding delete_mapped
  delete_mapped-Does exchange m e ne = rw (str_ne exchange "" ne) (
      then-Does (delete_routed (noting channel) m) (delete_exchange (noting channel) exchange) e
        (map deleted (queues_of m)) (exchange_deleted exchange ∷ []) (delete_routed-Does m e)
        (delete_exchange-Does exchange))

led_by : (c : Char) (s t : String) → (c <∷> s) <> t ≢ ""
led_by c s t h = let q = sym (cons-append c s t) ∙ h in cc

-- A name that holds a character is not empty.
pub holding : (c : Char) (s t u : String) → s <> ((c <∷> t) <> u) ≢ ""
holding c empty t u h = led_by c t u (sym (nil-append ((c <∷> t) <> u)) ∙ h)
holding c (d <∷> s) t u h = led_by d s ((c <∷> t) <> u) h

pub underscored : (s t : String) → s <> ("_" <> t) ≢ ""
underscored s t = holding "_" s "" t

-- The queues that a map names.
pub queues-lookup : (q key : String) (m : Map String) → lookup key m ≡ some q → Memᴰ q (queues_of m)
unfolding lookup
queues-lookup q key [] h = cc
queues-lookup q key (entry ∷ rest) h = tested (entry.0 == key) h (queues-lookup q key rest)
  where
    tested :
        (b : Bool)
        → (if b then some entry.1 else lookup key rest) ≡ some q
        → (lookup key rest ≡ some q → Memᴰ q (queues_of rest))
        → Memᴰ q (entry.1 ∷ queues_of rest)
    tested true h' r = Memᴰ.head (sym (some_inj h'))
    tested false h' r = Memᴰ.tail (r h')

pub lookup-queues :
    (q : String) (m : Map String)
    → IsMap m
    → Memᴰ q (queues_of m)
    → (key : String) × (lookup key m ≡ some q)
unfolding lookup
lookup-queues q [] h i = absurd (Memᴰ.not-nil i)
lookup-queues q (entry ∷ rest) (fresh, h) (Memᴰ.head e) =
    (entry.0, rw (eq_refl entry.0) (ap some (sym e)))
lookup-queues q (entry ∷ rest) (fresh, h) (Memᴰ.tail i) =
    let (key, found) = lookup-queues q rest h i in (key, ground (arith, eq_iff entry.0 key))

-- Of a queue, only its own deletion deletes it.
pub deleted-deletions :
    (q exchange : String) (queues : List String)
    → Memᴰ (deleted q) (map deleted queues ++ exchange_deleted exchange ∷ [])
    → Memᴰ q queues
deleted-deletions q exchange [] (Memᴰ.head e) = cc
deleted-deletions q exchange [] (Memᴰ.tail i) = absurd (Memᴰ.not-nil i)
deleted-deletions q exchange (r ∷ queues) (Memᴰ.head e) = Memᴰ.head cc
deleted-deletions q exchange (r ∷ queues) (Memᴰ.tail i) =
    Memᴰ.tail (deleted-deletions q exchange queues i)
