-- ===== src/Redis/Entries.antt =====
-- The values of a redis stream entry: what a publisher writes and what the extractors read, by key.
use Prim.Native.String.{◌++◌}
use expedit.Prelude.{
  String, Bool, true, false, not, Option, none, some, [], ◌≡◌, refl, sym, ap, ◌∙◌, if◌then◌else◌,
  Map, lookup, IsMap, arith, eq_iff, eq_refl, some_inj, has_prefix, trim_prefix, has_prefix-append,
  trim_prefix-append, has_prefix-trim, collect, collect-IsMap, lookup-collect, read_from,
}
use expedit.Go.Value.{Value, nil, str, bytes, int, boolean, err, dict}
use expedit.Redis.Values.{
  MessageWrapper, prefix_metadata_extractor, non_prefix_payload_extractor, metadata_entry,
  plain_entry, text_entry, Entry, prefix_entry,
}
use expedit.Redis.Publisher.{write_all, same_entry}

abbrev pub over : Option Value → Option Value → Option Value
over none before = before
over (some value) before = some value

abbrev pub text_value : Option String → Option Value
text_value none = none
text_value (some text) = some (str text)

lookup-write_all :
    (key : String) (m out : Map Value)
    → IsMap m
    → lookup key (write_all m out) ≡ over (lookup key m) (lookup key out)
unfolding write_all
lookup-write_all key m out h =
    lookup-collect same_entry (λ k. k) (λ k other v w e. ap (λ (p : Entry). p.0) (some_inj e)) key m
      out h
    ∙ found (lookup key m)
  where
    found :
        (o : Option Value)
        → read_from (same_entry key) key o (lookup key out) ≡ over o (lookup key out)
    found none = refl
    found (some v) = rw (eq_refl key)

module _ (prefix : String) where
  abbrev pub prefixed : Map Value → Map Value
  prefixed m = collect (prefix_entry prefix) m []

  prefix_source :
      (key other : String) (v w : Value)
      → prefix_entry prefix key v ≡ some (other, w)
      → key ≡ trim_prefix other prefix
  prefix_source key other v w e =
      let same = ap (λ (p : Entry). p.0) (some_inj e) in
      sym (trim_prefix-append prefix key) ∙ ap (λ s. trim_prefix s prefix) same

  pub lookup-prefixed :
      (key : String) (m : Map Value) → IsMap m → lookup (prefix ++ key) (prefixed m) ≡ lookup key m
  unfolding lookup
  lookup-prefixed key m h =
      lookup-collect (prefix_entry prefix) (λ k. trim_prefix k prefix) prefix_source (prefix ++ key)
        m [] h
      ∙ (ap (λ k. read_from (prefix_entry prefix k) (prefix ++ key) (lookup k m) none)
            (trim_prefix-append prefix key)
          ∙ found (lookup key m))
    where
      found : (o : Option Value) → read_from (prefix_entry prefix key) (prefix ++ key) o none ≡ o
      found none = refl
      found (some v) = rw (eq_refl (prefix ++ key))

  -- A key without the prefix is none of theirs.
  pub lookup-prefixed_other :
      (key : String) (m : Map Value)
      → IsMap m
      → has_prefix key prefix ≡ false
      → lookup key (prefixed m) ≡ none
  unfolding lookup
  lookup-prefixed_other key m h n =
      lookup-collect (prefix_entry prefix) (λ k. trim_prefix k prefix) prefix_source key m [] h
      ∙ found (lookup (trim_prefix key prefix) m)
    where
      found :
          (o : Option Value)
          → read_from (prefix_entry prefix (trim_prefix key prefix)) key o none ≡ none
      found none = refl
      found (some v) = ground (
        arith,
        eq_iff (prefix ++ trim_prefix key prefix) key,
        ap (λ s. has_prefix s prefix),
        has_prefix-append prefix (trim_prefix key prefix),
      )

  -- What the publisher puts into the entry, read at both kinds of keys.
  abbrev pub published : Map Value → Map Value → Map Value
  published metadata payload = write_all payload (write_all (prefixed metadata) [])

  pub lookup-published :
      (key : String) (metadata payload : Map Value)
      → IsMap metadata
      → IsMap payload
      → lookup key (published metadata payload)
        ≡ over (lookup key payload) (over (lookup key (prefixed metadata)) none)
  unfolding lookup
  lookup-published key metadata payload h i =
      lookup-write_all key payload (write_all (prefixed metadata) []) i
      ∙ ap (over (lookup key payload)) (
          lookup-write_all key (prefixed metadata) []
            (collect-IsMap (prefix_entry prefix) metadata [] tt))

  text_key : (key other : String) (v w : Value) → text_entry key v ≡ some (other, w) → key ≡ other
  text_key key other nil w e = cc
  text_key key other (str t) w e = ap (λ (p : Entry). p.0) (some_inj e)
  text_key key other (bytes b) w e = cc
  text_key key other (int n) w e = cc
  text_key key other (boolean b) w e = cc
  text_key key other (err x) w e = cc
  text_key key other (dict fs) w e = cc
  text_key key other (Value.other name n) w e = cc

  metadata_source :
      (key at : String) (v w : Value)
      → metadata_entry prefix key v ≡ some (at, w)
      → key ≡ prefix ++ at
  metadata_source key at v w e = tested (has_prefix key prefix) refl e
    where
      tested :
          (b : Bool)
          → has_prefix key prefix ≡ b
          → (if b then text_entry (trim_prefix key prefix) v else none) ≡ some (at, w)
          → key ≡ prefix ++ at
      tested true h e' =
          has_prefix-trim prefix key h
          ∙ ap (λ k. prefix ++ k) (text_key (trim_prefix key prefix) at v w e')
      tested false h e' = cc

  plain_source :
      (key at : String) (v w : Value) → plain_entry prefix key v ≡ some (at, w) → key ≡ at
  plain_source key at v w e = tested (has_prefix key prefix) e
    where
      tested : (b : Bool) → (if not b then same_entry key v else none) ≡ some (at, w) → key ≡ at
      tested true e' = cc
      tested false e' = ap (λ (p : Entry). p.0) (some_inj e')

  -- What the subscriber reads in an entry.
  pub read_metadata :
      (key : String) (w : MessageWrapper) (o : Option String)
      → IsMap w.msg.values
      → lookup (prefix ++ key) w.msg.values ≡ text_value o
      → lookup key (prefix_metadata_extractor prefix w) ≡ text_value o
  unfolding prefix_metadata_extractor lookup
  read_metadata key w o h e =
      lookup-collect (metadata_entry prefix) (λ k. prefix ++ k) metadata_source key w.msg.values []
        h
      ∙ (ap (λ x. read_from (metadata_entry prefix (prefix ++ key)) key x none) e ∙ found o)
    where
      found :
          (x : Option String)
          → read_from (metadata_entry prefix (prefix ++ key)) key (text_value x) none ≡ text_value x
      found none = refl
      found (some t) = rw (has_prefix-append prefix key, trim_prefix-append prefix key, eq_refl key)

  pub read_payload :
      (key : String) (w : MessageWrapper)
      → IsMap w.msg.values
      → has_prefix key prefix ≡ false
      → lookup key (non_prefix_payload_extractor prefix w) ≡ lookup key w.msg.values
  unfolding non_prefix_payload_extractor lookup
  read_payload key w h n =
      lookup-collect (plain_entry prefix) (λ k. k) plain_source key w.msg.values [] h
      ∙ found (lookup key w.msg.values)
    where
      found : (x : Option Value) → read_from (plain_entry prefix key) key x none ≡ x
      found none = refl
      found (some v) = rw (n, eq_refl key)

  pub read_no_payload :
      (key : String) (w : MessageWrapper)
      → IsMap w.msg.values
      → has_prefix key prefix ≡ true
      → lookup key (non_prefix_payload_extractor prefix w) ≡ none
  unfolding non_prefix_payload_extractor lookup
  read_no_payload key w h n =
      lookup-collect (plain_entry prefix) (λ k. k) plain_source key w.msg.values [] h
      ∙ found (lookup key w.msg.values)
    where
      found : (x : Option Value) → read_from (plain_entry prefix key) key x none ≡ none
      found none = refl
      found (some v) = rw n
