-- ===== src/Publisher/Destinations/Closing.antt =====
-- MessagePublisher.Close.
use expedit.Prelude.{
  String, ◌≡◌, refl, Bool, true, false, Option, none, some, List, [], ◌∷◌, ◌++◌, Map, arith, All,
  append_assoc, append-nil, ap, ◌∙◌, if◌then◌else◌,
}
use expedit.Go.Value.{Error, errors_join}
use expedit.Handler.{Run, Ret, ok, failed, panicked, final, panics, error_of}
use expedit.Publisher.Destinations.{
  Impl, Config, Destinations, err_closed, refused, look, or_else, create, deliver_to, routed,
  publish, close_all, finish, close, return_error,
}

finish-closed :
    {W T : Type 0} (d : Destinations W T) (r : Ret W (List Error)) → (finish d r).0.closed ≡ true
finish-closed d (ok errs s) = refl
finish-closed d (failed e s) = refl
finish-closed d (panicked v s) = refl

pub close-closed : {W T : Type 0} (d : Destinations W T) (s : Run W) → (close d s).0.closed ≡ true
unfolding close
close-closed d s = ground (arith, finish-closed d (close_all d.publishers [] s))

look_closed :
    {P : Type 0} (closed : Bool) (m : Map P) (dest : String)
    → closed ≡ true
    → look closed m dest ≡ refused
unfolding look
look_closed closed m dest h = rw h

publish_refused :
    {W T : Type 0} (c : Config W T) (d : Destinations W T) (t t' : Run W) (dest : String)
    → d.closed ≡ true
    → c.routing_func t ≡ ok dest t'
    → publish c d t ≡ (d, failed err_closed t')
unfolding publish
publish_refused c d t t' dest h routes =
    ap (routed c d) routes
    ∙ ap (λ x. deliver_to c (or_else x d t' (create c dest d t')))
        (look_closed d.closed d.publishers dest h)

close_again :
    {W T : Type 0} (d : Destinations W T) (t : Run W) → d.closed ≡ true → close d t ≡ (d, ok tt t)
unfolding close
close_again d t h =
    ap (λ (b : Bool). if b then (d, ok tt t) else finish d (close_all d.publishers [] t)) h

-- After Close, by whatever result, every Publish whose routing function gives a destination fails with
-- ErrClosed before it marshals or sends anything, and a second Close does nothing and returns nil.
pub closed_refuses :
    {W T : Type 0} (c : Config W T) (d : Destinations W T) (s t t' : Run W) (dest : String)
    → c.routing_func t ≡ ok dest t'
    → (publish c (close d s).0 t ≡ ((close d s).0, failed err_closed t'))
      × (close (close d s).0 t ≡ ((close d s).0, ok tt t))
closed_refuses c d s t t' dest h = (
  publish_refused c (close d s).0 t t' dest (close-closed d s) h,
  close_again (close d s).0 t (close-closed d s),
)

-- One close of a destination's publisher: which, and the error that it returned.
abbrev pub Closed : Type 0
Closed = String × Option Error

abbrev pub names {ℓ} : {V : Type ℓ} → Map V → List String
names [] = []
names ((k, v) ∷ m) = k ∷ names m

abbrev pub with_error : Option Error → List Error → List Error
with_error none es = es
with_error (some e) es = e ∷ es

abbrev pub failures : List Closed → List Error
failures [] = []
failures ((k, o) ∷ m) = with_error o (failures m)

-- Closing the publisher of `dest` writes its result to the log, and does not panic.
abbrev pub IsLogged : {W T : Type 0} → (W → List Closed) → String × Impl W T → Type 0
IsLogged {W} log (dest, impl) =
    (s : Run W)
    → (panics (impl.close s) ≡ false)
      × (log (final (impl.close s)).world ≡ log s.world ++ (dest, error_of (impl.close s)) ∷ [])

module _ {W T : Type 0} (log : W → List Closed) where
  record Closes (m : Map (Impl W T)) (errs : List Error) (s : Run W) (r : Ret W (List Error))
      : Type 0 where
    closed : List Closed
    last : Run W
    result : r ≡ ok (errs ++ failures closed) last
    logged : log last.world ≡ log s.world ++ closed
    each : names closed ≡ names m

  extend :
      {dest : String} {impl : Impl W T} {rest : Map (Impl W T)} {errs errs' : List Error}
      {s s' : Run W} {r : Ret W (List Error)} (o : Option Error)
      → log s'.world ≡ log s.world ++ (dest, o) ∷ []
      → ((es : List Error) → errs' ++ es ≡ errs ++ with_error o es)
      → Closes rest errs' s' r
      → Closes ((dest, impl) ∷ rest) errs s r
  extend {dest} {s} o l e c = record {
    closed = (dest, o) ∷ c.closed;
    last = c.last;
    result = c.result ∙ ap (λ es. ok es c.last) (e (failures c.closed));
    logged =
        c.logged
        ∙ ap (λ before. before ++ c.closed) l
        ∙ append_assoc (log s.world) ((dest, o) ∷ []) c.closed;
    each = ap (λ ks. dest ∷ ks) c.each;
  }

  close_all-Closes :
      (m : Map (Impl W T)) (errs : List Error) (s : Run W)
      → All (IsLogged log) m
      → Closes m errs s (close_all m errs s)
  unfolding close_all
  close_all-Closes [] errs s h = record {
    closed = [];
    last = s;
    result = rw (append-nil errs);
    logged = rw (append-nil (log s.world));
    each = refl;
  }
  close_all-Closes ((dest, impl) ∷ rest) errs s (here, h) =
      after (impl.close s) (here s) (λ errs' s'. close_all-Closes rest errs' s' h)
    where
      after :
          (r : Ret W (Unit {0}))
          → (panics r ≡ false) × (log (final r).world ≡ log s.world ++ (dest, error_of r) ∷ [])
          → ((errs' : List Error) (s' : Run W) → Closes rest errs' s' (close_all rest errs' s'))
          → Closes ((dest, impl) ∷ rest) errs s (elim r [
            | ok a s' ↦ close_all rest errs s'
            | failed e s' ↦ close_all rest (errs ++ e ∷ []) s'
            | panicked v s' ↦ panicked v s'
          ])
      after (ok a s') l ih = extend none l.1 (λ es. refl) (ih errs s')
      after (failed e s') l ih =
          extend (some e) l.1 (λ es. append_assoc errs (e ∷ []) es) (ih (errs ++ e ∷ []) s')
      after (panicked v s') l ih = cc

final-return_error : {W : Type 0} (o : Option Error) (s : Run W) → final (return_error o s) ≡ s
final-return_error none s = refl
final-return_error (some e) s = refl

error_of-return_error :
    {W : Type 0} (o : Option Error) (s : Run W) → error_of (return_error o s) ≡ o
error_of-return_error none s = refl
error_of-return_error (some e) s = refl

-- Close of an open MessagePublisher closes the publisher of every destination once, also after some of
-- them have failed; it returns nil if none fails, and otherwise all their errors joined, in order;
-- and no publisher is kept. No publisher panics when it is closed, and each close writes its result
-- to the log.
pub close_closes_each :
    {W T : Type 0} (log : W → List Closed) (d : Destinations W T) (s : Run W)
    → All (IsLogged log) d.publishers
    → d.closed ≡ false
    → (closed : List Closed) × (log (final (close d s).1).world ≡ log s.world ++ closed)
      × (names closed ≡ names d.publishers)
      × (error_of (close d s).1 ≡ errors_join (failures closed))
      × ((close d s).0 ≡ record { publishers = []; closed = true })
unfolding close
close_closes_each {W} {T} log d s h open_ =
    let c = close_all-Closes log d.publishers [] s h in
    let o = errors_join (failures c.closed) in
    (
      c.closed,
      ap (λ r. log (final r.1).world) (closing c)
          ∙ ap (λ t. log t.world) (final-return_error o c.last)
          ∙ c.logged,
      c.each,
      ap (λ r. error_of r.1) (closing c) ∙ error_of-return_error o c.last,
      ap (λ r. r.0) (closing c),
    )
  where
    closing :
        (c : Closes log d.publishers [] s (close_all d.publishers [] s))
        → close d s ≡ (
          record { publishers = []; closed = true },
          return_error (errors_join (failures c.closed)) c.last,
        )
    closing c =
        ap (λ (b : Bool). if b then (d, ok tt s) else finish d (close_all d.publishers [] s)) open_
        ∙ ap (finish d) c.result
