-- ===== src/Params/Redacted/Hidden.antt =====
-- What the logged form of a parameter map does not depend on.
use epay_sdk_rust.Common.{◌≡◌, refl, ap, ◌⊎◌, inl, inr, true, some, List, [], ◌∷◌, arith}
use epay_sdk_rust.Text.{Text, codes, ends_with}
use epay_sdk_rust.Text.Laws.{text_compare_eq}
use epay_sdk_rust.Crates.Form.{FormUrlencoded}
use epay_sdk_rust.Crates.UrlCrate.{UrlCrate}
use epay_sdk_rust.BTreeMap
use epay_sdk_rust.Params.{Params, insert, get, is_secret}
use epay_sdk_rust.Params.Redacted.{
  mask_query, show_parsed, redact_url_query, redacted_value, redacted_entry, redacted_entries,
  redacted_encode, stars,
}

module _ (c : UrlCrate) where
  -- the two values are URLs that have queries and differ in nothing else
  pub record DifferInQuery (v w : Text) : Type 0 where
    pub url : c.Url
    pub first : c.parse v ≡ some url
    pub has_query : Text
    pub queried : c.query url ≡ some has_query
    pub other : Text
    pub second : c.parse w ≡ some (c.set_query (some other) url)

  -- the values that a log must not tell apart
  abbrev pub IsHidden : Text → Text → Text → Type 0
  IsHidden k v w = (is_secret k ≡ true) ⊎ ((ends_with k (codes "_url") ≡ true) × DifferInQuery v w)

  show_parsed-query :
      (v q : Text) (url : c.Url)
      → c.query url ≡ some q
      → show_parsed c v (some url) ≡ c.as_str (c.set_query (some stars) url)
  unfolding show_parsed mask_query
  show_parsed-query v q url h = rw (show_parsed, h)

  redact-DifferInQuery :
      (v w : Text) → DifferInQuery v w → redact_url_query c v ≡ redact_url_query c w
  unfolding redact_url_query
  redact-DifferInQuery v w d =
      let (q, queried) = c.query-set_query d.other d.url in
      rw (
        d.first,
        d.second,
        show_parsed-query v d.has_query d.url d.queried,
        show_parsed-query w q (c.set_query (some d.other) d.url) queried,
        c.set_query-set_query (some stars) (some d.other) d.url,
      )

  redacted_entry-IsHidden :
      (k v w : Text) → IsHidden k v w → redacted_entry c (k, v) ≡ redacted_entry c (k, w)
  unfolding redacted_entry redacted_value
  redacted_entry-IsHidden k v w (inl secret) = rw (secret)
  redacted_entry-IsHidden k v w (inr (url, d)) = rw (url, redact-DifferInQuery v w d)

  redacted_entries-insert :
      (k v w : Text) (m : List (Text × Text))
      → BTreeMap.lookup k m ≡ some v
      → redacted_entry c (k, v) ≡ redacted_entry c (k, w)
      → redacted_entries c (BTreeMap.insert k w m) ≡ redacted_entries c m
  unfolding redacted_entries BTreeMap.insert BTreeMap.lookup
  redacted_entries-insert k v w [] found same = cc
  redacted_entries-insert k v w ((j, x) ∷ m) found same =
      ground (arith, text_compare_eq k j, redacted_entries-insert k v w m, found, same)

  -- Another value for `key` or `sign`, or another query in the URL of a key that ends in `_url`,
  -- does not change the text that is logged for the map.
  pub redacted_encode-insert :
      (enc : FormUrlencoded) (p : Params) (k v w : Text)
      → get p k ≡ some v
      → IsHidden k v w
      → redacted_encode c enc (insert k w p) ≡ redacted_encode c enc p
  unfolding redacted_encode insert get
  redacted_encode-insert enc p k v [] found hidden = refl
  redacted_encode-insert enc p k v (x ∷ w) found hidden = ap enc.serialize (
      redacted_entries-insert k v (x ∷ w) p.inner found
        (redacted_entry-IsHidden k v (x ∷ w) hidden))
