-- ===== src/Redis/RoundTrip.antt =====
-- From a redis publisher to a redis subscriber: what is metadata and what is payload arrives as such.
use Prim.Native.String.{◌++◌}
use expedit.Prelude.{
  String, true, false, Option, none, some, [], ◌≡◌, refl, sym, ap, ◌∙◌, inl, inr, Map, lookup,
  IsMap, has_prefix, has_prefix-append, Bool-cases,
}
use expedit.Go.Value.{Value, str}
use expedit.Message.{entries}
use expedit.Handler.{Run, Ret, ok, failed, panicked}
use expedit.Redis.Values.{
  MessageWrapper, XAddValuesMarshaller, metadata_with_prefix, prefix_metadata_extractor,
  non_prefix_payload_extractor,
}
use expedit.Redis.Publisher.{
  PublisherOptions, XAddArgs, with_metadata_marshaller, marshal, with_id, with_payload, entry_id,
  write_all,
}
use expedit.Redis.Entries.{
  text_value, over, prefixed, published, lookup-prefixed, lookup-prefixed_other, lookup-published,
  read_metadata, read_payload, read_no_payload,
}

-- Every value is a text.
abbrev pub IsTextual : Map Value → Type 0
IsTextual m = (key : String) → (o : Option String) × (lookup key m ≡ text_value o)

-- What redis promises of the values of an entry: texts arrive as they were added, and no others.
pub record IsDelivered (added got : Map Value) : Type 0 where
  pub text :
      (key text : String) → lookup key added ≡ some (str text) → lookup key got ≡ some (str text)
  pub absent : (key : String) → lookup key added ≡ none → lookup key got ≡ none
  pub once : IsMap got

delivered_value :
    {added got : Map Value} (d : IsDelivered added got) (key : String) (o : Option String)
    → lookup key added ≡ text_value o
    → lookup key got ≡ text_value o
delivered_value d key none e = d.absent key e
delivered_value d key (some text) e = d.text key text e

with_id-values :
    {W : Type 0} (options : PublisherOptions W) (values : Map Value) (r : Ret W String)
    {args : XAddArgs} {s : Run W}
    → with_id options values r ≡ ok args s
    → args.values ≡ values
with_id-values options values (ok id s') {args} h = sym (ap (values_or args) h)
  where
    values_or : {W : Type 0} → XAddArgs → Ret W XAddArgs → Map Value
    values_or a (ok x t) = x.values
    values_or a (failed e t) = a.values
    values_or a (panicked v t) = a.values
with_id-values options values (failed e s') h = cc
with_id-values options values (panicked v s') h = cc

pub marshal-values :
    {W : Type 0} (prefix : String) (options : PublisherOptions W)
    (payload_marshaller : XAddValuesMarshaller W) (s : Run W) {s' s'' : Run W} {payload : Map Value}
    {args : XAddArgs}
    → payload_marshaller s ≡ ok payload s'
    → marshal (with_metadata_marshaller (metadata_with_prefix prefix) options) payload_marshaller s
      ≡ ok args s''
    → args.values ≡ published prefix (entries s.message.metadata) payload
unfolding marshal with_metadata_marshaller metadata_with_prefix write_all
marshal-values prefix options payload_marshaller s {s'} {payload = payload} e h =
    let o = with_metadata_marshaller (metadata_with_prefix prefix) options in
    let metadata = write_all (prefixed prefix (entries s.message.metadata)) [] in
    with_id-values o (published prefix (entries s.message.metadata) payload) (entry_id o s')
      (sym (ap (with_payload o metadata) e) ∙ h)

over_text : (o : Option String) → over (text_value o) none ≡ text_value o
over_text none = refl
over_text (some text) = refl

-- A redis publisher that puts the metadata under a prefix, and any payload marshaller whose keys do
-- not begin with it: in the entry that arrives, the subscriber's PrefixMetadataExtractor finds every
-- key of the message's metadata, and NonPrefixPayloadExtractor every key of the payload, each with
-- its value, and no other keys. All values are texts, and redis delivers texts as they were added.
pub published_arrives :
    {W : Type 0} (prefix : String) (options : PublisherOptions W)
    (payload_marshaller : XAddValuesMarshaller W) (s s' s'' : Run W) (payload : Map Value)
    (args : XAddArgs) (w : MessageWrapper) (key : String)
    → payload_marshaller s ≡ ok payload s'
    → marshal (with_metadata_marshaller (metadata_with_prefix prefix) options) payload_marshaller s
      ≡ ok args s''
    → IsMap (entries s.message.metadata)
    → IsTextual (entries s.message.metadata)
    → IsMap payload
    → IsTextual payload
    → ((k : String) → has_prefix k prefix ≡ true → lookup k payload ≡ none)
    → IsDelivered args.values w.msg.values
    → (lookup key (prefix_metadata_extractor prefix w) ≡ lookup key (entries s.message.metadata))
      × (lookup key (non_prefix_payload_extractor prefix w) ≡ lookup key payload)
published_arrives prefix options payload_marshaller s s' s'' payload args w key e h m tm p tp free
      d =
    let metadata = entries s.message.metadata in
    let values = marshal-values prefix options payload_marshaller s e h in
    let (text, is_text) = tm key in
    let (body, is_body) = tp key in
    let added : lookup (prefix ++ key) args.values ≡ text_value text =
      ap (lookup (prefix ++ key)) values
      ∙ (lookup-published prefix (prefix ++ key) metadata payload m p
          ∙ (ap (λ x. over x (over (lookup (prefix ++ key) (prefixed prefix metadata)) none))
                (free (prefix ++ key) (has_prefix-append prefix key))
              ∙ (ap (λ x. over x none) (lookup-prefixed prefix key metadata m ∙ is_text)
                  ∙ over_text text))) in
    let plain : has_prefix key prefix ≡ false → lookup key args.values ≡ text_value body = λ n.
      ap (lookup key) values
      ∙ (lookup-published prefix key metadata payload m p
          ∙ (ap (λ x. over x (over (lookup key (prefixed prefix metadata)) none)) is_body
              ∙ (ap (λ x. over (text_value body) (over x none))
                    (lookup-prefixed_other prefix key metadata m n)
                  ∙ over_text body))) in
    (
      read_metadata prefix key w text d.once (delivered_value d (prefix ++ key) text added)
          ∙ sym is_text,
      elim (Bool-cases (has_prefix key prefix)) [
        | inl y ↦ read_no_payload prefix key w d.once y ∙ sym (free key y)
        | inr n ↦
            read_payload prefix key w d.once n
            ∙ (delivered_value d key body (plain n) ∙ sym is_body)
      ],
    )
