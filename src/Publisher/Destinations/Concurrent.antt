-- ===== src/Publisher/Destinations/Concurrent.antt =====
-- getPublisher called from many goroutines, with Close among them. A call is two atomic sections: the
-- look under the read lock, and `create` under the write lock if that found nothing.
pub mod Once
use expedit.Prelude.{
  update, ℕ, String, ◌≡◌, refl, Bool, false, some, Map, [], lookup, insert, arith, if◌then◌else◌,
  ap, ◌∙◌, sym, ◌⊎◌, inl, inr, subst, Bool-cases,
}
use expedit.Handler.{Run, Ret, ok, failed, panicked, final}
use expedit.Publisher.Destinations.{
  Impl, Config, Destinations, no_destinations, Found, refused, cached, missing, look, create, close,
}
use expedit.Publisher.Destinations.Caching.{
  Got, hit, made, none_got, create-Got, look_cached, is_ok, Got-stored, Got-keeps,
}
use expedit.Publisher.Destinations.Closing.{close-closed}

-- Where a goroutine stands in its call, or what its call has returned.
pub data Pc (W T : Type 0) : Type 0 where
  outside : Pc W T
  started : String → Pc W T  -- before the read lock
  missed : String → Pc W T  -- between the locks
  got : String → Impl W T → Pc W T
  gave_up : Pc W T

-- `created` is what the map would hold had it never been closed; the program has no such field.
pub record System (W T : Type 0) : Type 0 where
  pub shared : Destinations W T
  pub run : Run W
  pub pc : ℕ → Pc W T
  pub created : Map (Impl W T)

abbrev pub after_look : {W T : Type 0} → String → Found (Impl W T) → Pc W T
after_look dest refused = gave_up
after_look dest (cached p) = got dest p
after_look dest missing = missed dest

abbrev pub after_create : {W T : Type 0} → String → Ret W (Impl W T) → Pc W T
after_create dest (ok p s) = got dest p
after_create dest (failed e s) = gave_up
after_create dest (panicked v s) = gave_up

pub data Step {W T : Type 0} (c : Config W T) (s : System W T) : System W T → Type 0 where
  call :
      (i : ℕ) (dest : String)
      → s.pc i ≡ outside
      → Step c s (record s { pc = update s.pc i (started dest) })
  look_up :
      (i : ℕ) (dest : String)
      → s.pc i ≡ started dest
      → Step c s (record s {
        pc = update s.pc i (after_look dest (look s.shared.closed s.shared.publishers dest));
      })
  make :
      (i : ℕ) (dest : String) {d : Destinations W T} {r : Ret W (Impl W T)}
      → s.pc i ≡ missed dest
      → create c dest s.shared s.run ≡ (d, r)
      → Step c s (record {
        shared = d;
        run = final r;
        pc = update s.pc i (after_create dest r);
        created = if d.closed then s.created else d.publishers;
      })
  closes :
      {d : Destinations W T} {r : Ret W (Unit {0})}
      → close s.shared s.run ≡ (d, r)
      → Step c s (record s { shared = d; run = final r })

-- The system at the state of a new MessagePublisher, and behind any steps.
pub data Reach {W T : Type 0} (c : Config W T) (run : Run W) : System W T → Type 0 where
  start :
      Reach c run (record { shared = no_destinations; run = run; pc = λ i. outside; created = [] })
  next : {s t : System W T} → Reach c run s → Step c s t → Reach c run t

pub record Inv {W T : Type 0} (s : System W T) : Type 0 where
  pub current : s.shared.closed ≡ false → s.shared.publishers ≡ s.created
  pub stored :
      (i : ℕ) (dest : String) (p : Impl W T) → s.pc i ≡ got dest p → lookup dest s.created ≡ some p

module _ {W T : Type 0} where
  -- The state after the section under the write lock.
  abbrev pub made_by : System W T → ℕ → String → Destinations W T × Ret W (Impl W T) → System W T
  made_by s i dest g = record {
    shared = g.0;
    run = final g.1;
    pc = update s.pc i (after_create dest g.1);
    created = if g.0.closed then s.created else g.0.publishers;
  }

  after_look-got :
      (dest k : String) (x : Found (Impl W T)) (p : Impl W T)
      → after_look dest x ≡ got k p
      → (dest ≡ k) × (x ≡ cached p)
  after_look-got dest k refused p h = cc
  after_look-got dest k (cached q) p h = ground arith
  after_look-got dest k missing p h = cc

  pc_got :
      (pc : ℕ → Pc W T) (i j : ℕ) (x : Pc W T) (k : String) (p : Impl W T)
      → update pc i x j ≡ got k p
      → (x ≡ got k p) ⊎ (pc j ≡ got k p)
  pc_got pc i j x k p h = ground arith

  module _ (c : Config W T) (s : System W T) (v : Inv s) where
    call-stored :
        (i : ℕ) (x : Pc W T)
        → ((k : String) (p : Impl W T) → x ≡ got k p → lookup k s.created ≡ some p)
        → (j : ℕ) (k : String) (p : Impl W T) → update s.pc i x j ≡ got k p
        → lookup k s.created ≡ some p
    call-stored i x own j k p h = elim (pc_got s.pc i j x k p h) [
      | inl e ↦ own k p e
      | inr e ↦ v.stored j k p e
    ]

    look_up-stored :
        (dest k : String) (p : Impl W T)
        → after_look dest (look s.shared.closed s.shared.publishers dest) ≡ got k p
        → lookup k s.created ≡ some p
    look_up-stored dest k p h =
        let (same, hits) = after_look-got dest k _ p h in
        let (open_, found) = look_cached s.shared.closed s.shared.publishers dest hits in
        subst (λ key. lookup key s.created ≡ some p) same
          (ap (lookup dest) (sym (v.current open_)) ∙ found)

    pub same_created : (if s.shared.closed then s.created else s.shared.publishers) ≡ s.created
    same_created = elim (Bool-cases s.shared.closed) [
      | inl e ↦ ap (λ (b : Bool). if b then s.created else s.shared.publishers) e
      | inr e ↦ ap (λ (b : Bool). if b then s.created else s.shared.publishers) e ∙ v.current e
    ]

    make-Inv :
        (i : ℕ) (dest : String) {g : Destinations W T × Ret W (Impl W T)}
        → Got dest s.shared s.run g
        → Inv (made_by s i dest g)
    make-Inv i dest (hit p open_ found) = record {
      current = λ o. v.current o ∙ sym same_created;
      stored = λ j k q h. ap (lookup k) same_created ∙ call-stored i (got dest p) own j k q h;
    }
      where
        here : lookup dest s.created ≡ some p
        here = ap (lookup dest) (sym (v.current open_)) ∙ found

        own : (k : String) (q : Impl W T) → got dest p ≡ got k q → lookup k s.created ≡ some q
        own k q e = cc here
    make-Inv i dest (made p s' open_ absent) = record {
      current = λ o. sym now_created;
      stored = λ j k q h. ap (lookup k) now_created ∙ in_map j k q h;
    }
      where
        pubs : Map (Impl W T)
        pubs = insert dest p s.shared.publishers

        now_created : (if s.shared.closed then s.created else pubs) ≡ pubs
        now_created = ap (λ (b : Bool). if b then s.created else pubs) open_

        step : Got dest s.shared s.run (record (s.shared) { publishers = pubs }, ok p s')
        step = made p s' open_ absent

        own : (k : String) (q : Impl W T) → got dest p ≡ got k q → lookup k pubs ≡ some q
        own k q e = cc ((Got-stored step p s' refl).1)

        in_map :
            (j : ℕ) (k : String) (q : Impl W T)
            → update s.pc i (got dest p) j ≡ got k q
            → lookup k pubs ≡ some q
        in_map j k q h = elim (pc_got s.pc i j (got dest p) k q h) [
          | inl e ↦ own k q e
          | inr e ↦ Got-keeps step k q (ap (lookup k) (v.current open_) ∙ v.stored j k q e)
        ]
    make-Inv i dest (none_got r n) = record {
      current = λ o. v.current o ∙ sym same_created;
      stored = λ j k q h.
          ap (lookup k) same_created ∙ call-stored i (after_create dest r) (own r n) j k q h;
    }
      where
        own :
            (x : Ret W (Impl W T))
            → is_ok x ≡ false
            → (k : String) (q : Impl W T) → after_create dest x ≡ got k q
            → lookup k s.created ≡ some q
        own (ok p t) n k q e = cc
        own (failed x t) n k q e = cc
        own (panicked x t) n k q e = cc

  Step-Inv : (c : Config W T) {s t : System W T} → Step c s t → Inv s → Inv t
  Step-Inv c {s} (call i dest e) v = record {
    current = v.current;
    stored = call-stored c s v i (started dest) (λ k p x. cc);
  }
  Step-Inv c {s} (look_up i dest e) v = record {
    current = v.current;
    stored = call-stored c s v i _ (look_up-stored c s v dest);
  }
  Step-Inv c {s} (make i dest e made_) v =
      subst (λ g. Inv (made_by s i dest g)) made_
        (make-Inv c s v i dest (create-Got c dest s.shared s.run))
  Step-Inv c {s} (closes e) v = record {
    current = λ o. cc (ap (λ g. g.0.closed) e, close-closed s.shared s.run);
    stored = v.stored;
  }

  pub Reach-Inv : (c : Config W T) {run : Run W} {s : System W T} → Reach c run s → Inv s
  unfolding no_destinations
  Reach-Inv c start = record { current = λ o. refl; stored = λ i dest p h. cc }
  Reach-Inv c (next r st) = Step-Inv c st (Reach-Inv c r)
