-- ===== src/Amqp/Connection/Once.antt =====
-- How often a connection is restored.
use expedit.Prelude.{
  ℕ, suc, ◌≤◌, ◌≡◌, ◌≢◌, refl, Bool, true, false, ◌&&◌, ◌=?◌, if◌then◌else◌, update, arith, subst,
  ap, ◌∙◌, ◌⊎◌, inl, inr,
}
use expedit.Amqp.Connection.{
  is_waiting, RetryDelayStrategy, Notice, gone, over, Watcher, listening, waiting, retrying,
  sleeping, dialling, exited, System, noticed, told, Step, listen, listen_late, delay, wake,
  dial_failed, dialled, lose, close, start, Reach, here, next,
}

-- Before the first reconnection, or after it.
abbrev Place : Watcher → System → Type 0
Place listening s = (s.made ≡ 1) ⊎ (s.shut s.watched ≡ true)
Place waiting s = s.made ≡ 1
Place retrying s = (s.made ≡ 1) × (s.shut s.watched ≡ true)
Place (sleeping d) s = (s.made ≡ 1) × (s.shut s.watched ≡ true)
Place dialling s = (s.made ≡ 1) × (s.shut s.watched ≡ true)
Place exited s = Unit

record Inv (s : System) : Type 0 where
  few : s.made ≤ 2
  latest : suc s.connection ≡ s.made
  place : Place s.watcher s

Place-at : {w : Watcher} (s : System) → s.watcher ≡ w → Place s.watcher s → Place w s
Place-at s e h = subst (λ k. Place k s) e h

abbrev lost : ℕ → System → System
lost conn s = record s { shut = update s.shut conn true }

shut-lost : (conn : ℕ) (s : System) → s.shut s.watched ≡ true → (lost conn s).shut s.watched ≡ true
shut-lost conn s h = ground arith

Place-lost : (w : Watcher) (conn : ℕ) (s : System) → Place w s → Place w (lost conn s)
Place-lost listening conn s (inl h) = inl h
Place-lost listening conn s (inr h) = inr (shut-lost conn s h)
Place-lost waiting conn s h = h
Place-lost retrying conn s h = (h.0, shut-lost conn s h.1)
Place-lost (sleeping d) conn s h = (h.0, shut-lost conn s h.1)
Place-lost dialling conn s h = (h.0, shut-lost conn s h.1)
Place-lost exited conn s h = tt

told-Inv : (n : Notice) (conn : ℕ) (s : System) → Inv s → Inv (told n conn s)
told-Inv n conn s v = tested (is_waiting s.watcher) (conn =? s.watched) refl refl
  where
    kept : Inv (lost conn s)
    kept = record { few = v.few; latest = v.latest; place = Place-lost s.watcher conn s v.place }

    at_wait : (w : Watcher) → is_waiting w ≡ true → Place w s → s.made ≡ 1
    at_wait listening e h = cc
    at_wait waiting e h = h
    at_wait retrying e h = cc
    at_wait (sleeping d) e h = cc
    at_wait dialling e h = cc
    at_wait exited e h = cc

    heard : (x : Notice) → s.made ≡ 1 → (conn =? s.watched) ≡ true → Inv (noticed x (lost conn s))
    heard gone one same = record { few = v.few; latest = v.latest; place = (one, ground arith) }
    heard over one same = record { few = v.few; latest = v.latest; place = tt }

    tested :
        (a b : Bool)
        → is_waiting s.watcher ≡ a
        → (conn =? s.watched) ≡ b
        → Inv (if a && b then noticed n (lost conn s) else lost conn s)
    tested true true ha hb = heard n (at_wait s.watcher ha v.place) hb
    tested true false ha hb = kept
    tested false b ha hb = kept

start-Inv : Inv start
start-Inv = record { few = omega arith; latest = refl; place = inl refl }

told-keeps :
    (n : Notice) (conn : ℕ) (s : System)
    → s.shut s.connection ≡ true
    → ((told n conn s).connection ≡ s.connection) × ((told n conn s).shut s.connection ≡ true)
told-keeps n conn s h = tested n (is_waiting s.watcher && (conn =? s.watched))
  where
    still : (lost conn s).shut s.connection ≡ true
    still = ground arith

    tested :
        (n : Notice) (b : Bool)
        → ((if b then noticed n (lost conn s) else lost conn s).connection ≡ s.connection)
          × ((if b then noticed n (lost conn s) else lost conn s).shut s.connection ≡ true)
    tested gone true = (refl, still)
    tested over true = (refl, still)
    tested n false = (refl, still)

module _ {strategy : RetryDelayStrategy} where
  Step-Inv : {s t : System} → Step strategy over s t → Inv s → Inv t
  Step-Inv {s} (listen l o) v = record {
    few = v.few;
    latest = v.latest;
    place = once (Place-at s l v.place);
  }
    where
      once : (s.made ≡ 1) ⊎ (s.shut s.watched ≡ true) → s.made ≡ 1
      once (inl h) = h
      once (inr h) = cc
  Step-Inv {s} (listen_late l o) v = record { few = v.few; latest = v.latest; place = tt }
  Step-Inv {s} (delay l) v = record { few = v.few; latest = v.latest; place = Place-at s l v.place }
  Step-Inv {s} (wake d l) v = record {
    few = v.few;
    latest = v.latest;
    place = Place-at s l v.place;
  }
  Step-Inv {s} (dial_failed l) v = record {
    few = v.few;
    latest = v.latest;
    place = Place-at s l v.place;
  }
  Step-Inv {s} (dialled l) v =
      let (one, shut) = Place-at s l v.place in
      record { few = omega (arith, one); latest = refl; place = inr shut }
  Step-Inv {s} (lose conn b o) v = told-Inv gone conn s v
  Step-Inv {s} (close conn b o) v = told-Inv over conn s v

  Reach-Inv : {s t : System} → Reach strategy over s t → Inv s → Inv t
  Reach-Inv here v = v
  Reach-Inv (next r st) v = Step-Inv st (Reach-Inv r v)

  -- Once a connection was made twice, no step makes another, or opens one that is shut.
  Step-keeps :
      {s t : System}
      → Step strategy over s t
      → Inv s
      → s.made ≡ 2
      → s.shut s.connection ≡ true
      → (t.connection ≡ s.connection) × (t.shut s.connection ≡ true)
  Step-keeps (listen l o) v m h = (refl, h)
  Step-keeps (listen_late l o) v m h = (refl, h)
  Step-keeps (delay l) v m h = (refl, h)
  Step-keeps (wake d l) v m h = (refl, h)
  Step-keeps (dial_failed l) v m h = (refl, h)
  Step-keeps {s} (dialled l) v m h = absurd (omega (arith, (Place-at s l v.place).0))
  Step-keeps {s} (lose conn b o) v m h = told-keeps gone conn s h
  Step-keeps {s} (close conn b o) v m h = told-keeps over conn s h

  -- The connection after the first reconnection is never replaced: where the amqp library tells a
  -- goroutine that calls NotifyClose on a connection that is not open any more that it is closed,
  -- whatever the retry strategy is, a ReconnectingConnection that was restored, and whose new
  -- connection is not open any more, keeps that one for ever.
  pub never_restored :
      {s t : System}
      → Reach strategy over start s
      → s.connection ≢ 0
      → s.shut s.connection ≡ true
      → Reach strategy over s t
      → (t.connection ≡ s.connection) × (t.shut t.connection ≡ true)
  never_restored r n h here = (refl, h)
  never_restored {s} {t} r n h (next {u} q st) =
      let (same, shut) = never_restored r n h q in
      let v = Reach-Inv r start-Inv in
      let w = Reach-Inv q v in
      let restored : s.connection ≡ 1 = omega (arith, v.latest, v.few, n) in
      let (kept, still) = Step-keeps st w (omega (arith, w.latest, same, restored)) shut in
      (kept ∙ same, ap t.shut kept ∙ still)
