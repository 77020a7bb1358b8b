-- ===== src/Publisher/Destinations/Concurrent/Once.antt =====
-- How often the factory makes a publisher, when many goroutines call getPublisher.
use expedit.Prelude.{
  ℕ, suc, String, ◌≡◌, refl, sym, ap, ◌∙◌, Bool, Bool-cases, inl, inr, false, Option, none, some,
  List, [], ◌∷◌, ◌++◌, ◌==◌, if◌then◌else◌, Map, lookup, insert, lookup-insert, All, arith, eq_iff,
  subst,
}
use expedit.Go.Value.{Error, errors_join}
use expedit.Handler.{Run, Ret, ok, failed, panicked, final}
use expedit.Publisher.Destinations.{
  Impl, Config, Destinations, no_destinations, Found, refused, cached, missing, look, or_else,
  store, create, err_closed, close, close_all, finish, return_error,
}
use expedit.Publisher.Destinations.Caching.{look-missing}
use expedit.Publisher.Destinations.Concurrent.{
  System, got, Step, call, look_up, make, closes, Reach, start, next, Inv, made_by, same_created,
  Reach-Inv,
}

-- What a call of the factory adds to the log of the publishers that were made: its destination, if it
-- succeeds.
abbrev pub noted : {W A : Type 0} → String → Ret W A → List String → List String
noted dest (ok p s) l = dest ∷ l
noted dest (failed e s) l = l
noted dest (panicked v s) l = l

-- `log` is the part of the world in which the publishers that the factory makes are noted; closing one
-- of them leaves it alone.
pub record Notes {W T : Type 0} (log : W → List String) (c : Config W T) : Type 0 where
  pub by_factory :
      (dest : String) (s : Run W)
      → log (final (c.get_destination_publisher dest s)).world
        ≡ noted dest (c.get_destination_publisher dest s) (log s.world)
  pub by_close :
      (dest : String) (s t u : Run W) (p : Impl W T)
      → c.get_destination_publisher dest s ≡ ok p t
      → log (final (p.close u)).world ≡ log u.world

-- How often a destination is in a log.
abbrev pub times : String → List String → ℕ
times key [] = 0
times key (dest ∷ l) = let rest = times key l in if dest == key then suc rest else rest

abbrev present : {A : Type 0} → Option A → ℕ
present none = 0
present (some a) = 1

All-insert :
    {V : Type 0} (P : String × V → Type 0) (key : String) (value : V) (m : Map V)
    → P (key, value)
    → All P m
    → All P (insert key value m)
unfolding insert
All-insert P key value [] p h = (p, tt)
All-insert P key value (entry ∷ rest) p h = elim (Bool-cases (entry.0 == key)) [
  | inl e ↦ rw e (p, h.1)
  | inr e ↦ rw e (h.0, All-insert P key value rest p h.1)
]

-- A destination that was absent is made and stored.
times-insert :
    {V : Type 0} (dest k : String) (value : V) (m : Map V) (l : List String)
    → times k l ≡ present (lookup k m)
    → lookup dest m ≡ none
    → times k (dest ∷ l) ≡ present (lookup k (insert dest value m))
times-insert dest k value m l h absent = ground (arith, lookup-insert dest k value m, eq_iff dest k)

module _ {W T : Type 0} (log : W → List String) where
  abbrev IsQuiet : String × Impl W T → Type 0
  IsQuiet entry = (u : Run W) → log (final (entry.1.close u)).world ≡ log u.world

  close_all-log :
      (m : Map (Impl W T)) (errs : List Error) (s : Run W)
      → All IsQuiet m
      → log (final (close_all m errs s)).world ≡ log s.world
  unfolding close_all
  close_all-log [] errs s h = refl
  close_all-log ((dest, impl) ∷ rest) errs s (here, h) =
      after (impl.close s) (λ es t. close_all-log rest es t h) ∙ here s
    where
      after :
          (r : Ret W (Unit {0}))
          → ((es : List Error) (t : Run W) → log (final (close_all rest es t)).world ≡ log t.world)
          → log
              (final (elim r as (λ x. Ret W (List Error)) [
                | ok a t ↦ close_all rest errs t
                | failed e t ↦ close_all rest (errs ++ e ∷ []) t
                | panicked v t ↦ panicked v t
              ])).world
            ≡ log (final r).world
      after (ok a t) ih = ih errs t
      after (failed e t) ih = ih (errs ++ e ∷ []) t
      after (panicked v t) ih = refl

  -- Close leaves the log alone, and the publishers that it leaves are quiet.
  close-quiet :
      (d : Destinations W T) (s : Run W)
      → All IsQuiet d.publishers
      → (log (final (close d s).1).world ≡ log s.world) × All IsQuiet (close d s).0.publishers
  unfolding close
  close-quiet d s h = elim (Bool-cases d.closed) [
    | inl e ↦ rw e (refl, h)
    | inr e ↦ rw e (finished (close_all d.publishers [] s) (close_all-log d.publishers [] s h))
  ]
    where
      returned : (o : Option Error) (t : Run W) → log (final (return_error o t)).world ≡ log t.world
      returned none t = refl
      returned (some e) t = refl

      finished :
          (r : Ret W (List Error))
          → log (final r).world ≡ log s.world
          → (log (final (finish d r).1).world ≡ log s.world) × All IsQuiet (finish d r).0.publishers
      finished (ok errs t) e = (returned (errors_join errs) t ∙ e, tt)
      finished (failed x t) e = (e, tt)
      finished (panicked v t) e = (e, h)

  -- What the map would hold had it never been closed was made once each.
  record Counted (s : System W T) : Type 0 where
    counted : (k : String) → times k (log s.run.world) ≡ present (lookup k s.created)
    quiet : All IsQuiet s.shared.publishers

  module _ (c : Config W T) (notes : Notes log c) where
    make-Counted :
        (s : System W T) (i : ℕ) (dest : String)
        → Inv s
        → Counted s
        → Counted (made_by s i dest (create c dest s.shared s.run))
    unfolding create
    make-Counted s i dest v w = by_look (look s.shared.closed s.shared.publishers dest) refl
      where
        unchanged :
            (r : Ret W (Impl W T))
            → log (final r).world ≡ log s.run.world
            → Counted (made_by s i dest (s.shared, r))
        unchanged r e = record {
          counted = λ k.
              ap (times k) e
              ∙ w.counted k
              ∙ ap (λ m. present (lookup k m)) (sym (same_created c s v));
          quiet = w.quiet;
        }

        noted_by :
            (r : Ret W (Impl W T))
            → c.get_destination_publisher dest s.run ≡ r
            → log (final r).world ≡ noted dest r (log s.run.world)
        noted_by r e =
            ap (λ r. log (final r).world) (sym e)
            ∙ notes.by_factory dest s.run
            ∙ ap (λ r. noted dest r (log s.run.world)) e

        stored :
            (r : Ret W (Impl W T))
            → c.get_destination_publisher dest s.run ≡ r
            → (s.shared.closed ≡ false) × (lookup dest s.shared.publishers ≡ none)
            → Counted (made_by s i dest (store dest s.shared r))
        stored (ok p t) e (open_, absent) = record {
          counted = λ k.
              ap (times k) (noted_by (ok p t) e)
              ∙ times-insert dest k p s.shared.publishers (log s.run.world)
                  (w.counted k ∙ ap (λ m. present (lookup k m)) (sym (v.current open_))) absent
              ∙ ap
                  (λ (b : Bool).
                    present (lookup k (if b then s.created else insert dest p s.shared.publishers)))
                  (sym open_);
          quiet =
              All-insert IsQuiet dest p s.shared.publishers (λ u. notes.by_close dest s.run t u p e)
                w.quiet;
        }
        stored (failed x t) e h = unchanged (failed x t) (
            ap (λ r. log (final r).world) (sym e)
            ∙ notes.by_factory dest s.run
            ∙ ap (λ r. noted dest r (log s.run.world)) e)
        stored (panicked x t) e h = unchanged (panicked x t) (
            ap (λ r. log (final r).world) (sym e)
            ∙ notes.by_factory dest s.run
            ∙ ap (λ r. noted dest r (log s.run.world)) e)

        by_look :
            (x : Found (Impl W T))
            → look s.shared.closed s.shared.publishers dest ≡ x
            → Counted (
                made_by s i dest (
                  or_else x s.shared s.run
                    (store dest s.shared (c.get_destination_publisher dest s.run))))
        by_look refused e = unchanged (failed err_closed s.run) refl
        by_look (cached p) e = unchanged (ok p s.run) refl
        by_look missing e =
            stored (c.get_destination_publisher dest s.run) refl
              (look-missing s.shared.closed s.shared.publishers dest e)

    Step-Counted : {s t : System W T} → Step c s t → Inv s → Counted s → Counted t
    Step-Counted (call i dest e) v w = record { counted = w.counted; quiet = w.quiet }
    Step-Counted (look_up i dest e) v w = record { counted = w.counted; quiet = w.quiet }
    Step-Counted {s} (make i dest e made) v w =
        subst (λ g. Counted (made_by s i dest g)) made (make-Counted s i dest v w)
    Step-Counted {s} (closes e) v w =
        let (same, quiet) =
          subst (λ g. (log (final g.1).world ≡ log s.run.world) × All IsQuiet g.0.publishers) e
            (close-quiet s.shared s.run w.quiet) in
        record { counted = λ k. ap (times k) same ∙ w.counted k; quiet = quiet }

    Reach-Counted : {run : Run W} {s : System W T} → log run.world ≡ [] → Reach c run s → Counted s
    unfolding no_destinations lookup
    Reach-Counted none_made start = record { counted = λ k. ap (times k) none_made; quiet = tt }
    Reach-Counted none_made (next r st) =
        Step-Counted st (Reach-Inv c r) (Reach-Counted none_made r)

  -- Whatever goroutines call getPublisher and Close at the same time, and however they interleave, all
  -- calls for one destination that succeed have returned the same publisher, and the factory has made
  -- one for the destination, once, although two goroutines can both have found none under the read
  -- lock. The world notes each publisher that the factory makes, none before the first call, and
  -- closing one leaves these notes alone.
  pub one_publisher :
      (c : Config W T) {run : Run W} {s : System W T} (i j : ℕ) (dest : String) (p q : Impl W T)
      → Notes log c
      → log run.world ≡ []
      → Reach c run s
      → s.pc i ≡ got dest p
      → s.pc j ≡ got dest q
      → (p ≡ q) × (times dest (log s.run.world) ≡ 1)
  one_publisher c i j dest p q notes none_made r e f =
      let here = (Reach-Inv c r).stored i dest p e in
      (
        cc (here, (Reach-Inv c r).stored j dest q f),
        (Reach-Counted c notes none_made r).counted dest ∙ ap present here,
      )
