-- ===== src/Publisher/Destinations/Caching.antt =====
-- What MessagePublisher keeps of the publishers of its destinations.
use expedit.Prelude.{
  String, List, [], ◌∷◌, ◌≡◌, refl, Bool, true, false, none, some, Map, lookup, insert,
  lookup-insert, lookup-insert_self, arith, eq_iff, ap, subst,
}
use expedit.Handler.{Run, Ret, ok, failed, panicked}
use expedit.Publisher.Destinations.{
  Impl, Config, Destinations, Found, refused, cached, missing, look, or_else, store, create,
  get_publisher, deliver_to, routed, publish,
}

abbrev pub is_ok : {W A : Type 0} → Ret W A → Bool
is_ok (ok a s) = true
is_ok (failed e s) = false
is_ok (panicked v s) = false

pub look_cached :
    {P : Type 0} (closed : Bool) (m : Map P) (dest : String) {p : P}
    → look closed m dest ≡ cached p
    → (closed ≡ false) × (lookup dest m ≡ some p)
unfolding look
look_cached closed m dest h = ground arith

pub look-missing :
    {P : Type 0} (closed : Bool) (m : Map P) (dest : String)
    → look closed m dest ≡ missing
    → (closed ≡ false) × (lookup dest m ≡ none)
unfolding look
look-missing closed m dest h = ground arith

pub look_of_lookup :
    {P : Type 0} (closed : Bool) (m : Map P) (dest : String) {p : P}
    → closed ≡ false
    → lookup dest m ≡ some p
    → look closed m dest ≡ cached p
unfolding look
look_of_lookup closed m dest h k = rw (h, k)

-- The ways in which `create` and `get_publisher` end.
pub data Got {W T : Type 0} (dest : String) (d : Destinations W T) (s : Run W)
    : Destinations W T × Ret W (Impl W T) → Type 0 where
  hit :
      (p : Impl W T)
      → d.closed ≡ false
      → lookup dest d.publishers ≡ some p
      → Got dest d s (d, ok p s)
  made :
      (p : Impl W T) (s' : Run W)
      → d.closed ≡ false
      → lookup dest d.publishers ≡ none
      → Got dest d s (record d { publishers = insert dest p d.publishers }, ok p s')
  none_got : (r : Ret W (Impl W T)) → is_ok r ≡ false → Got dest d s (d, r)

module _ {W T : Type 0} (c : Config W T) (dest : String) (d : Destinations W T) (s : Run W) where
  or_else-Got :
      (x : Found (Impl W T)) (r : Destinations W T × Ret W (Impl W T))
      → look d.closed d.publishers dest ≡ x
      → (look d.closed d.publishers dest ≡ missing → Got dest d s r)
      → Got dest d s (or_else x d s r)
  or_else-Got refused r e g = none_got _ refl
  or_else-Got (cached p) r e g =
      let (open_, found) = look_cached d.closed d.publishers dest e in hit p open_ found
  or_else-Got missing r e g = g e

  store-Got :
      (r : Ret W (Impl W T))
      → look d.closed d.publishers dest ≡ missing
      → Got dest d s (store dest d r)
  store-Got (ok p s') e =
      let (open_, absent) = look-missing d.closed d.publishers dest e in made p s' open_ absent
  store-Got (failed x s') e = none_got _ refl
  store-Got (panicked v s') e = none_got _ refl

  pub create-Got : Got dest d s (create c dest d s)
  unfolding create
  create-Got = or_else-Got _ _ refl (store-Got (c.get_destination_publisher dest s))

  pub get_publisher-Got : Got dest d s (get_publisher c dest d s)
  unfolding get_publisher
  get_publisher-Got = or_else-Got _ _ refl (λ e. create-Got)

-- The publisher that a successful call gives is the one stored for the destination.
pub Got-stored :
    {W T : Type 0} {dest : String} {d : Destinations W T} {s : Run W}
    {g : Destinations W T × Ret W (Impl W T)}
    → Got dest d s g
    → (p : Impl W T) (s' : Run W) → g.1 ≡ ok p s'
    → (g.0.closed ≡ false) × (lookup dest g.0.publishers ≡ some p)
Got-stored (hit q o e) p s' h = (o, ground arith)
Got-stored {dest} {d} (made q t o e) p s' h =
    (o, ground (arith, lookup-insert_self dest q d.publishers))
Got-stored (none_got r n) p s' h = cc

pub Got-keeps :
    {W T : Type 0} {dest : String} {d : Destinations W T} {s : Run W}
    {g : Destinations W T × Ret W (Impl W T)}
    → Got dest d s g
    → (k : String) (p : Impl W T) → lookup k d.publishers ≡ some p
    → lookup k g.0.publishers ≡ some p
Got-keeps (hit q o e) k p h = h
Got-keeps {dest} {d} (made q t o e) k p h =
    ground (arith, lookup-insert dest k q d.publishers, eq_iff dest k)
Got-keeps (none_got r n) k p h = h

-- A call of Publish, or of getPublisher.
pub data Use (W : Type 0) : Type 0 where
  publishes : Run W → Use W
  looks_up : String → Run W → Use W

-- The fields behind such calls, one after the other.
abbrev pub used : {W T : Type 0} → Config W T → Use W → Destinations W T → Destinations W T
used c (publishes s) d = (publish c d s).0
used c (looks_up dest s) d = (get_publisher c dest d s).0

abbrev pub used_each :
    {W T : Type 0} → Config W T → List (Use W) → Destinations W T → Destinations W T
used_each c [] d = d
used_each c (u ∷ us) d = used_each c us (used c u d)

-- The publisher of a destination that is not closed.
abbrev Holds : {W T : Type 0} → String → Impl W T → Destinations W T → Type 0
Holds dest p d = (d.closed ≡ false) × (lookup dest d.publishers ≡ some p)

Got-Holds :
    {W T : Type 0} {dest : String} {d : Destinations W T} {s : Run W}
    {g : Destinations W T × Ret W (Impl W T)}
    → Got dest d s g
    → (k : String) (p : Impl W T) → Holds k p d
    → Holds k p g.0
Got-Holds (hit q o e) k p h = h
Got-Holds {s = s} (made q t o e) k p h = (h.0, Got-keeps {s = s} (made q t o e) k p h.1)
Got-Holds (none_got r n) k p h = h

module _ {W T : Type 0} (c : Config W T) where
  routed-Holds :
      (d : Destinations W T) (r : Ret W String) (k : String) (p : Impl W T)
      → Holds k p d
      → Holds k p (routed c d r).0
  unfolding routed
  routed-Holds d (ok dest s) k p h =
      delivered (get_publisher c dest d s) (Got-Holds (get_publisher-Got c dest d s) k p h)
    where
      delivered :
          (g : Destinations W T × Ret W (Impl W T)) → Holds k p g.0 → Holds k p (deliver_to c g).0
      delivered (d', ok q t) h = h
      delivered (d', failed e t) h = h
      delivered (d', panicked v t) h = h
  routed-Holds d (failed e s) k p h = h
  routed-Holds d (panicked v s) k p h = h

  used_each-Holds :
      (us : List (Use W)) (d : Destinations W T) (k : String) (p : Impl W T)
      → Holds k p d
      → Holds k p (used_each c us d)
  unfolding publish
  used_each-Holds [] d k p h = h
  used_each-Holds (publishes s ∷ us) d k p h =
      used_each-Holds us _ k p (routed-Holds d (c.routing_func s) k p h)
  used_each-Holds (looks_up dest s ∷ us) d k p h =
      used_each-Holds us _ k p (Got-Holds (get_publisher-Got c dest d s) k p h)

  -- Once getPublisher has returned a publisher for a destination, and whatever calls of Publish and
  -- getPublisher follow, for this and for other destinations, but none of Close: a later getPublisher
  -- for the destination returns the same publisher, creates none and changes nothing.
  pub get_publisher_twice :
      (dest : String) (d d' : Destinations W T) (s s' t : Run W) (p : Impl W T) (us : List (Use W))
      → get_publisher c dest d s ≡ (d', ok p s')
      → get_publisher c dest (used_each c us d') t ≡ (used_each c us d', ok p t)
  unfolding get_publisher
  get_publisher_twice dest d d' s s' t p us h =
      let stored = Got-stored (get_publisher-Got c dest d s) p s' (ap (λ g. g.1) h) in
      let now = used_each c us d' in
      let (open_, found) =
        used_each-Holds us d' dest p (subst (Holds dest p) (ap (λ g. g.0) h) stored) in
      ap (λ x. or_else x now t (create c dest now t))
        (look_of_lookup now.closed now.publishers dest open_ found)

  routed_keeps :
      (d : Destinations W T) (r : Ret W String) (k : String) (p : Impl W T)
      → lookup k d.publishers ≡ some p
      → lookup k (routed c d r).0.publishers ≡ some p
  unfolding routed
  routed_keeps d (ok dest s) k p h =
      delivered (get_publisher c dest d s) (Got-keeps (get_publisher-Got c dest d s) k p h)
    where
      delivered :
          (g : Destinations W T × Ret W (Impl W T))
          → lookup k g.0.publishers ≡ some p
          → lookup k (deliver_to c g).0.publishers ≡ some p
      delivered (d', ok q t) h = h
      delivered (d', failed e t) h = h
      delivered (d', panicked v t) h = h
  routed_keeps d (failed e s) k p h = h
  routed_keeps d (panicked v s) k p h = h

  -- Publish never loses or replaces the publisher of a destination, whatever the call does and
  -- whether it fails.
  pub publish_keeps :
      (d : Destinations W T) (s : Run W) (k : String) (p : Impl W T)
      → lookup k d.publishers ≡ some p
      → lookup k (publish c d s).0.publishers ≡ some p
  unfolding publish
  publish_keeps d s k p h = routed_keeps d (c.routing_func s) k p h
