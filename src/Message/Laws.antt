-- ===== src/Message/Laws.antt =====
-- Message.Equals, Message.Copy and Message.WithMetadata.
use expedit.Prelude.{
  suc, String, ◌≡◌, refl, sym, ap, subst, ◌∙◌, ◌↔◌, Bool, true, false, ◌&&◌, Option, none, some,
  some_inj, [], ◌∷◌, Map, IsMap, lookup, insert, length, arith, eq_iff, eq_refl, ◌==◌, Bool-cases,
  inl, inr,
}
use expedit.Go.Value.{Value, deep_equal}
use expedit.Go.Value.Equality.{IsValue, deep_equal_refl}
use expedit.Message.{
  Message, Metadata, entries, found_equal, entries_equal, equals, copy, with_metadata, new_message,
  with_entries, write,
}

-- Every entry of the first map is in the second with an equal value.
abbrev pub Covers : Map Value → Map Value → Type 0
Covers m n =
    (k : String) (v : Value)
    → lookup k m ≡ some v
    → (w : Value) × (lookup k n ≡ some w) × (deep_equal v w ≡ true)

found_equal_inv :
    (v : Value) (o : Option Value)
    → found_equal v o ≡ true
    → (w : Value) × (o ≡ some w) × (deep_equal v w ≡ true)
found_equal_inv v none h = cc
found_equal_inv v (some w) h = (w, refl, h)

and_left : (a b : Bool) → (a && b) ≡ true → a ≡ true
and_left a b h = ground arith

and_right : (a b : Bool) → (a && b) ≡ true → b ≡ true
and_right a b h = ground arith

Covers-of_entries_equal : (m n : Map Value) → entries_equal m n ≡ true → Covers m n
unfolding entries_equal lookup
Covers-of_entries_equal [] n h k v e = cc
Covers-of_entries_equal ((j, u) ∷ m) n h k v e = elim (Bool-cases (j == k)) [
  | inl same ↦
      let jk : j ≡ k = (eq_iff j k).0 same in
      let uv : u ≡ v = ground arith in
      let here = found_equal_inv u (lookup j n) (and_left _ _ h) in
      subst (λ t. (w : Value) × (lookup t n ≡ some w) × (deep_equal v w ≡ true)) jk
        (subst (λ x. (w : Value) × (lookup j n ≡ some w) × (deep_equal x w ≡ true)) uv here)
  | inr differs ↦ Covers-of_entries_equal m n (and_right _ _ h) k v (rw differs at e)
]

entries_equal_of_Covers : (m n : Map Value) → IsMap m → Covers m n → entries_equal m n ≡ true
unfolding entries_equal lookup
entries_equal_of_Covers [] n im c = refl
entries_equal_of_Covers ((j, u) ∷ m) n (fresh, im) c =
    let (w, p, q) = c j u (rw (eq_refl j)) in
    rw (ap (found_equal u) p ∙ q)
      (entries_equal_of_Covers m n im (λ k v e. c k v (ground (arith, eq_iff j k))))

equals_tests :
    (m n : Message)
    → (equals m n ≡ true) ↔ (
        (m.id ≡ n.id)
        × (length (entries m.metadata) ≡ length (entries n.metadata))
        × (entries_equal (entries m.metadata) (entries n.metadata) ≡ true)
        × (deep_equal m.payload n.payload ≡ true))
unfolding equals
equals_tests m n = ground (arith, eq_iff m.id n.id)

-- Equals holds exactly if the messages have the same ID, as many metadata entries, each entry of the
-- receiver's metadata in the other's with an equal value, and equal payloads. The receiver's
-- metadata hold each key once, as a Go map does.
pub equals_iff :
    (m n : Message)
    → IsMap (entries m.metadata)
    → (equals m n ≡ true) ↔ (
        (m.id ≡ n.id)
        × (length (entries m.metadata) ≡ length (entries n.metadata))
        × Covers (entries m.metadata) (entries n.metadata)
        × (deep_equal m.payload n.payload ≡ true))
equals_iff m n im = (
  λ h.
      let (ids, sizes, covered, payloads) = (equals_tests m n).0 h in
      (ids, sizes, Covers-of_entries_equal _ _ covered, payloads),
  λ (ids, sizes, covers, payloads).
      (equals_tests m n).1 (ids, sizes, entries_equal_of_Covers _ _ im covers, payloads),
)

length-insert_new :
    (k : String) (v : Value) (m : Map Value)
    → lookup k m ≡ none
    → length (insert k v m) ≡ suc (length m)
unfolding lookup insert
length-insert_new k v [] h = refl
length-insert_new k v ((j, w) ∷ m) h = ground (arith, length-insert_new k v m)

-- A copy equals its original, but no longer after a metadata key that the original has not is written
-- to the copy. The original's values are Go values: every map in them holds each key once. The
-- original has a metadata map, so that the write does not panic.
pub equals-copy :
    (m c : Message) (k : String) (v : Value)
    → IsMap (entries m.metadata)
    → ((j : String) (w : Value) → lookup j (entries m.metadata) ≡ some w → IsValue w)
    → IsValue m.payload
    → lookup k (entries m.metadata) ≡ none
    → with_metadata (copy m) k v ≡ some c
    → (equals m (copy m) ≡ true) × (equals m c ≡ false)
unfolding copy new_message with_metadata
equals-copy m c k v im vs p new_ w = (
  (equals_iff m (copy m) im).1
      (refl, refl, λ j x e. (x, e, deep_equal_refl x (vs j x e)), deep_equal_refl m.payload p),
  elim (Bool-cases (equals m c)) [
    | inl same ↦ absurd (omega (arith, ((equals_tests m c).0 same).1, longer m.metadata new_ w))
    | inr differs ↦ differs
  ],
)
  where
    longer :
        (md : Metadata)
        → lookup k (entries md) ≡ none
        → with_entries (copy m) (write md k v) ≡ some c
        → length (entries c.metadata) ≡ suc (length (entries md))
    longer none h e = cc
    longer (some es) h e =
        ap (λ x. length (entries x.metadata)) (sym (some_inj e)) ∙ length-insert_new k v es h
