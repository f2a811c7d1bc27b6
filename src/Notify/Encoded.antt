-- ===== src/Notify/Encoded.antt =====
-- What is encoded for a request is read back by the strict parser of notifications.
pub mod Escaping
use epay_sdk_rust.Common.{
  ℕ, ◌+◌, ◌*◌, ◌≤◌, ◌<◌, ◌≡◌, refl, sym, ap, ◌∙◌, true, false, none, some, List, [], ◌∷◌, ◌++◌, map,
  append_assoc, append-nil, arith, ltb, leb, ◌==◌, length, is_nil, length-append, All, All-append,
}
use epay_sdk_rust.Text.{Text, as_bytes, len, join}
use epay_sdk_rust.Text.Laws.{
  text_eq_iff, text_eq_refl, text_compare_eq, text_compare_swap, text_compare_trans, all-as_bytes,
  len-append, length-le-len, lower_idempotent,
}
use epay_sdk_rust.Text.Utf8.{from_utf8}
use epay_sdk_rust.Text.Split.{Lacks, split-join, split_once-append}
use epay_sdk_rust.BTreeMap
use epay_sdk_rust.BTreeMap.Appended.{
  AllBelow, Precedes, lookup-AllBelow, insert-AllBelow, Precedes-append,
}
use epay_sdk_rust.Crates.Form.{FormUrlencoded}
use epay_sdk_rust.Crates.Percent.{PercentDecode}
use epay_sdk_rust.Error.{Error, Result, ok, err, ◌>>=◌, ◌>>◌, ok_or, notify_error}
use epay_sdk_rust.Notify.Sorted.{query_entry, canonicalize-sorted}
use epay_sdk_rust.Params.{Params, empty, insert, get, contains}
use epay_sdk_rust.Params.Valid.{IsValid, HasValue}
use epay_sdk_rust.Params.Redacted.{encode}
use epay_sdk_rust.Notify.{
  NotifySource, RawNotifyEntry, default_limits, is_escaped, validate_percent_encoding,
  plus_to_space, split_pair, decode_component, parse_pair, parse_pairs, parse_source,
  parse_raw_with_limits, parse_raw,
}
use epay_sdk_rust.Notify.Canonical.{
  Maps, target, with_target, is_present, collect, check_conflicts, add_missing, canonicalize,
  parse_notify_params,
}

-- a text of Unicode scalar values, as Rust's are
abbrev pub IsText : Text → Type 0
IsText s = from_utf8 (as_bytes s) ≡ some s

-- one encoded pair
abbrev pub encoded_pair : (Text → Text) → Text × Text → Text
encoded_pair component (k, v) = component k ++ b'=' ∷ component v

-- How `form_urlencoded` serializes, and that `percent-encoding` decodes it: `byte_serialize` escapes
-- everything but letters, digits and a few signs, and writes a space as `+`.
pub record FormCodec (enc : FormUrlencoded) (p : PercentDecode) : Type 0 where
  pub component : Text → Text
  pub serialize_lem :
      (pairs : List (Text × Text))
      → enc.serialize pairs ≡ join (map (encoded_pair component) pairs) (b'&' ∷ [])
  pub no_ampersand : (s : Text) → Lacks b'&' (component s)
  pub no_equals : (s : Text) → Lacks b'=' (component s)
  pub escaped : (s : Text) → is_escaped (as_bytes (component s)) ≡ true
  pub decoded : (s : Text) → IsText s → p.decode_utf8 (plus_to_space (component s)) ≡ some s

-- what a pair has to be to be sent
abbrev pub IsSendablePair : Text × Text → Type 0
IsSendablePair (k, v) = (is_nil k ≡ false) × IsText k × IsText v

module _ {enc : FormUrlencoded} {p : PercentDecode} (codec : FormCodec enc p) where
  open codec use {component}

  decode-component : (s : Text) → IsText s → decode_component p (component s) ≡ ok s
  unfolding decode_component validate_percent_encoding
  decode-component s h = rw (codec.escaped s, codec.decoded s h)

  split_pair-encoded :
      (k v : Text) → split_pair (encoded_pair component (k, v)) ≡ (component k, component v)
  unfolding split_pair
  split_pair-encoded k v =
      ap
        (λ o. elim o as (λ x. Text × Text) [
          | none ↦ (encoded_pair component (k, v), [])
          | some kv ↦ kv
        ])
        (split_once-append (component k) (component v) b'=' (codec.no_equals k))

  parse-encoded_pair :
      (k v : Text)
      → IsSendablePair (k, v)
      → parse_pair p NotifySource.query (encoded_pair component (k, v)) ≡ ok (query_entry (k, v))
  unfolding parse_pair
  parse-encoded_pair k v (filled, hk, hv) =
      rw (split_pair-encoded k v, decode-component k hk, filled, decode-component v hv)

  -- one round of the loop, for a pair that is not empty
  parse_pairs-next :
      (most : ℕ) (pair : Text) (pairs : List Text) (entries : List RawNotifyEntry)
      (entry : RawNotifyEntry)
      → is_nil pair ≡ false
      → length entries < most
      → parse_pair p NotifySource.query pair ≡ ok entry
      → parse_pairs p NotifySource.query most (pair ∷ pairs) entries
        ≡ parse_pairs p NotifySource.query most pairs (entries ++ entry ∷ [])
  unfolding parse_pairs
  parse_pairs-next most [] pairs entries entry filled room parsed = cc (filled)
  parse_pairs-next most (c ∷ pair) pairs entries entry filled room parsed =
      let free : leb most (length entries) ≡ false = ground (arith, room) in rw (free, parsed)

  encoded_pair-ne-nil : (s t : Text) → is_nil (s ++ b'=' ∷ t) ≡ false
  encoded_pair-ne-nil [] t = refl
  encoded_pair-ne-nil (c ∷ s) t = refl

  parse_pairs-encoded :
      (most : ℕ) (m : List (Text × Text)) (entries : List RawNotifyEntry)
      → All IsSendablePair m
      → length entries + length m ≤ most
      → parse_pairs p NotifySource.query most (map (encoded_pair component) m) entries
        ≡ ok (entries ++ map query_entry m)
  unfolding parse_pairs
  parse_pairs-encoded most [] entries h room = ap ok (sym (append-nil entries))
  parse_pairs-encoded most ((k, v) ∷ m) entries (hkv, hs) room =
      let entry = query_entry (k, v) in
      let room' : length (entries ++ entry ∷ []) + length m ≤ most =
        ground (arith, length-append entries (entry ∷ []), room) in
      parse_pairs-next most (encoded_pair component (k, v)) (map (encoded_pair component) m) entries
        entry (encoded_pair-ne-nil (component k) (component v)) (omega arith)
        (parse-encoded_pair k v hkv)
      ∙ parse_pairs-encoded most m (entries ++ entry ∷ []) hs room'
      ∙ ap ok (append_assoc entries (entry ∷ []) (map query_entry m))

join-ne-nil :
    (q : Text) (qs : List Text) → is_nil q ≡ false → is_nil (join (q ∷ qs) (b'&' ∷ [])) ≡ false
unfolding join
join-ne-nil q [] h = h
join-ne-nil [] (r ∷ qs) h = cc
join-ne-nil (c ∷ q) (r ∷ qs) h = refl

module _ {enc : FormUrlencoded} {p : PercentDecode} (codec : FormCodec enc p) where
  encoded-Lacks : (m : List (Text × Text)) → All (Lacks b'&') (map (encoded_pair codec.component) m)
  encoded-Lacks [] = tt
  encoded-Lacks ((k, v) ∷ m) = (
    All-append (λ c. (c == b'&') ≡ false) (codec.component k) (b'=' ∷ codec.component v)
        (codec.no_ampersand k) (refl, codec.no_ampersand v),
    encoded-Lacks m,
  )

  parse_source-encoded :
      (m : List (Text × Text))
      → All IsSendablePair m
      → length m ≤ 128
      → parse_source p (some (enc.serialize m)) NotifySource.query 128 [] ≡ ok (map query_entry m)
  unfolding parse_source
  parse_source-encoded [] h fits =
      let nothing : enc.serialize [] ≡ [] = codec.serialize_lem [] ∙ unfold join in refl in
      rw (nothing)
  parse_source-encoded ((k, v) ∷ m) h fits =
      let pair = encoded_pair codec.component (k, v) in
      let pairs = map (encoded_pair codec.component) m in
      rw
        (
          codec.serialize_lem ((k, v) ∷ m),
          join-ne-nil pair pairs
              (encoded_pair-ne-nil codec (codec.component k) (codec.component v)),
          split-join pair pairs b'&' (encoded-Lacks ((k, v) ∷ m)),
        )
        (parse_pairs-encoded codec 128 ((k, v) ∷ m) [] h (omega arith))

  parse_source-none :
      (source : NotifySource) (most : ℕ) (entries : List RawNotifyEntry)
      → parse_source p none source most entries ≡ ok entries
  unfolding parse_source
  parse_source-none source most entries = refl

  -- The encoding of a map is read back as the map by the strict parser of notifications, if the map
  -- has at most 128 entries of Unicode texts, none with an empty name or value, and the encoding has
  -- at most 16 KiB. The encoder escapes each text and the decoder undoes it.
  pub parse_notify_params-encode :
      (params : Params)
      → IsValid params
      → All IsSendablePair params.inner
      → length params.inner ≤ 128
      → len (encode enc params) ≤ 16 * 1024
      → parse_notify_params p (some (encode enc params)) none ≡ ok params
  unfolding parse_notify_params parse_raw parse_raw_with_limits encode
  parse_notify_params-encode params valid sendable few small =
      let fits : ltb (16 * 1024) (len (enc.serialize params.inner) + 0) ≡ false =
        ground (arith, small) in
      rw
        (
          fits,
          parse_source-encoded params.inner sendable few,
          parse_source-none NotifySource.form 128 (map query_entry params.inner),
        )
        (canonicalize-sorted params valid)
