-- ===== src/Amqp/Headers/Prefixes.antt =====
-- Headers under a prefix: written, read again, and filtered.
use Prim.Native.String.{◌++◌}
use expedit.Prelude.{
  String, Bool, true, false, not, Option, none, some, [], ◌≡◌, refl, ap, ◌∙◌, if◌then◌else◌, lookup,
  IsMap, eq_refl, some_inj, has_prefix, trim_prefix, has_prefix-append, trim_prefix-append,
  has_prefix-trim, collect, collect-IsMap, lookup-collect, read_from,
}
use expedit.Go.Value.{Value, str}
use expedit.Message.{Message, entries}
use expedit.Redis.Entries.{lookup-prefixed}
use expedit.Amqp.Headers.{
  Header, prefixed_header, prefixed_headers_provider, clean_header, extract_prefixed_metadata,
  filtered_header, filtered_headers_provider, exclude_prefix_headers_provider,
  only_prefix_headers_provider,
}

abbrev pub printed : (Value → String) → Option Value → Option Value
printed sprint none = none
printed sprint (some v) = some (str (sprint v))

abbrev header : String → Value → Option Header
header key value = some (key, value)

clean_source :
    (sprint : Value → String) (prefix key at : String) (v w : Value)
    → clean_header sprint prefix key v ≡ some (at, w)
    → key ≡ prefix ++ at
clean_source sprint prefix key at v w e = tested (has_prefix key prefix) refl e
  where
    tested :
        (b : Bool)
        → has_prefix key prefix ≡ b
        → (if b then header (trim_prefix key prefix) (str (sprint v)) else none) ≡ some (at, w)
        → key ≡ prefix ++ at
    tested true h e' =
        has_prefix-trim prefix key h
        ∙ ap (λ k. prefix ++ k) (ap (λ (p : Header). p.0) (some_inj e'))
    tested false h e' = cc

-- ExtractPrefixedMetadata with a prefix reads back what PrefixedHeadersProvider with the prefix wrote:
-- for each key, the metadata value as text, or nothing where the message has none.
pub extract_prefixed_metadata-prefixed :
    (sprint : Value → String) (prefix key : String) (msg : Message)
    → IsMap (entries msg.metadata)
    → lookup key
        (entries (extract_prefixed_metadata sprint (prefixed_headers_provider prefix msg) prefix))
      ≡ printed sprint (lookup key (entries msg.metadata))
unfolding extract_prefixed_metadata prefixed_headers_provider lookup
extract_prefixed_metadata-prefixed sprint prefix key msg h =
    let m = entries msg.metadata in
    lookup-collect (clean_header sprint prefix) (λ k. prefix ++ k) (clean_source sprint prefix) key
      (collect (prefixed_header prefix) m []) [] (collect-IsMap (prefixed_header prefix) m [] tt)
    ∙ (ap (λ o. read_from (clean_header sprint prefix (prefix ++ key)) key o none)
          (lookup-prefixed prefix key m h)
        ∙ found (lookup key m))
  where
    found :
        (o : Option Value)
        → read_from (clean_header sprint prefix (prefix ++ key)) key o none ≡ printed sprint o
    found none = refl
    found (some v) = rw (has_prefix-append prefix key, trim_prefix-append prefix key, eq_refl key)

filtered_source :
    (filter : String → Bool) (key at : String) (v w : Value)
    → filtered_header filter key v ≡ some (at, w)
    → key ≡ at
filtered_source filter key at v w e = tested (filter key) e
  where
    tested : (b : Bool) → (if b then header key v else none) ≡ some (at, w) → key ≡ at
    tested true e' = ap (λ (p : Header). p.0) (some_inj e')
    tested false e' = cc

lookup-filtered :
    (filter : String → Bool) (key : String) (msg : Message)
    → IsMap (entries msg.metadata)
    → lookup key (filtered_headers_provider filter msg)
      ≡ (if filter key then lookup key (entries msg.metadata) else none)
unfolding filtered_headers_provider lookup
lookup-filtered filter key msg h =
    lookup-collect (filtered_header filter) (λ k. k) (filtered_source filter) key
      (entries msg.metadata) [] h
    ∙ found (filter key) refl (lookup key (entries msg.metadata))
  where
    found :
        (b : Bool)
        → filter key ≡ b
        → (o : Option Value)
        → read_from (filtered_header filter key) key o none ≡ (if b then o else none)
    found true e none = refl
    found true e (some v) = rw (e, eq_refl key)
    found false e none = refl
    found false e (some v) = rw e

-- OnlyPrefixHeadersProvider and ExcludePrefixHeadersProvider with one prefix split the metadata: a key
-- with the prefix is a header of the first only, any other key of the second only, with its value.
pub prefix_providers-split :
    (prefix key : String) (msg : Message)
    → IsMap (entries msg.metadata)
    → (lookup key (only_prefix_headers_provider prefix msg)
        ≡ (if has_prefix key prefix then lookup key (entries msg.metadata) else none))
      × (lookup key (exclude_prefix_headers_provider prefix msg)
          ≡ (if has_prefix key prefix then none else lookup key (entries msg.metadata)))
unfolding only_prefix_headers_provider exclude_prefix_headers_provider
prefix_providers-split prefix key msg h = (
  lookup-filtered (λ k. has_prefix k prefix) key msg h,
  lookup-filtered (λ k. not (has_prefix k prefix)) key msg h ∙ flipped (has_prefix key prefix),
)
  where
    flipped :
        (b : Bool)
        → (if not b then lookup key (entries msg.metadata) else none)
          ≡ (if b then none else lookup key (entries msg.metadata))
    flipped true = refl
    flipped false = refl
