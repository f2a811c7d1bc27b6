-- ===== src/Crates/Form.antt =====
-- `url::form_urlencoded`: the serializer and the lenient parser.
use epay_sdk_rust.Common.{none, some, List, [], ◌++◌, map}
use epay_sdk_rust.Text.{Text, codes, split, split_once, join}

pub record FormUrlencoded : Type 0 where
  pub serialize : List (Text × Text) → Text
  pub parse : Text → List (Text × Text)

-- An instance without escapes.
unfoldable pub toy_form : FormUrlencoded
unfolding join split split_once
toy_form = record {
  serialize = λ pairs. join (map (λ p. p.0 ++ codes "=" ++ p.1) pairs) (codes "&");
  parse = λ s.
      map (λ pair. elim (split_once pair b'=') [ none ↦ (pair, []) | some kv ↦ kv ]) (split s b'&');
}
