-- ===== src/Params/Redacted.antt =====
-- params.rs: the encodings, and the form that is safe to log. `Display` is `redacted_encode`, and
-- `Debug` lists the same entries.
pub mod Hidden
use epay_sdk_rust.Common.{
  ℕ, Bool, Option, none, some, List, [], ◌∷◌, ◌++◌, if◌then◌else◌, length, is_nil,
}
use epay_sdk_rust.Text.{Text, codes, len, ends_with}
use epay_sdk_rust.Text.Decimal.{to_string}
use epay_sdk_rust.Crates.Form.{FormUrlencoded}
use epay_sdk_rust.Crates.UrlCrate.{UrlCrate}
use epay_sdk_rust.Params.{Params, from_iter, is_secret}

-- `Params::iter` and `Params::as_pairs`: the pairs in key order
unfoldable pub as_pairs : Params → List (Text × Text)
as_pairs params = params.inner

-- `Params::len`
unfoldable pub params_len : Params → ℕ
params_len params = length params.inner

-- `Params::is_empty`
unfoldable pub is_empty : Params → Bool
is_empty params = is_nil params.inner

-- `Params::from_urlencoded`
unfoldable pub from_urlencoded : FormUrlencoded → Text → Params
from_urlencoded enc input = from_iter (enc.parse input)

-- `Params::encode`
unfoldable pub encode : FormUrlencoded → Params → Text
encode enc params = enc.serialize params.inner

abbrev pub stars : Text
stars = codes "***"

module _ (c : UrlCrate) where
  -- a URL with its query masked, if it has one
  unfoldable pub mask_query : Option Text → c.Url → c.Url
  mask_query none url = url
  mask_query (some _) url = c.set_query (some stars) url

  -- the match on the parsed value in `redact_url_query`
  unfoldable pub show_parsed : Text → Option c.Url → Text
  show_parsed value (some url) = c.as_str (mask_query (c.query url) url)
  show_parsed value none = codes "<invalid url: " ++ to_string (len value) ++ codes " bytes>"

  -- `redact_url_query`
  unfoldable pub redact_url_query : Text → Text
  redact_url_query value = show_parsed value (c.parse value)

  -- `redacted_value`
  unfoldable pub redacted_value : Text → Text → Text
  redacted_value key value = if ends_with key (codes "_url") then redact_url_query value else value

  -- one entry of `redacted_encode`
  unfoldable pub redacted_entry : Text × Text → Text × Text
  redacted_entry (k, v) = (k, if is_secret k then stars else redacted_value k v)

  -- the entries that `Debug` shows
  unfoldable pub redacted_entries : List (Text × Text) → List (Text × Text)
  redacted_entries [] = []
  redacted_entries (e ∷ m) = redacted_entry e ∷ redacted_entries m

  -- `Params::redacted_encode`
  unfoldable pub redacted_encode : FormUrlencoded → Params → Text
  redacted_encode enc params = enc.serialize (redacted_entries params.inner)
