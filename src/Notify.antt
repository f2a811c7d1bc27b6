-- ===== src/Notify.antt =====
-- notify.rs: strict parsing of callback parameters. The verification of the parsed parameters is in
-- Notify/Verify.antt.
pub mod Canonical
pub mod Merged
pub mod Escapes
pub mod Limits
pub mod Verify
pub mod Success
pub mod Fixture
pub mod Sorted
pub mod Encoded
use epay_sdk_rust.Common.{
  ℕ, ◌+◌, ◌*◌, Bool, true, not, ◌&&◌, Option, none, some, List, [], ◌∷◌, ◌++◌, map, ltb, leb, ◌==◌,
  if◌then◌else◌, length, is_nil,
}
use epay_sdk_rust.Text.{Text, Bytes, codes, as_bytes, len, is_ascii_hexdigit, split, split_once}
use epay_sdk_rust.Text.Decimal.{to_string}
use epay_sdk_rust.Crates.Percent.{PercentDecode}
use epay_sdk_rust.Error.{Error, Result, ok, err, ◌>>=◌, ◌>>◌, ok_or, notify_error}

pub record NotifyLimits : Type 0 where
  pub max_encoded_bytes : ℕ
  pub max_fields : ℕ

-- `Default for NotifyLimits`
abbrev pub default_limits : NotifyLimits
default_limits = record { max_encoded_bytes = 16 * 1024; max_fields = 128 }

pub data NotifySource : Type 0 where
  query form : NotifySource

pub record RawNotifyEntry : Type 0 where
  pub key : Text
  pub value : Text
  pub source : NotifySource

-- `validate_percent_encoding`: the loop over `index`, on the bytes that are left
unfoldable pub is_escaped : Bytes → Bool
unfolding is_ascii_hexdigit
is_escaped [] = true
is_escaped (b ∷ []) = not (b == b'%')
is_escaped (b ∷ h ∷ []) = not (b == b'%') && is_escaped (h ∷ [])
is_escaped (b ∷ h ∷ l ∷ rest) =
    let escape = is_ascii_hexdigit h && is_ascii_hexdigit l && is_escaped rest in
    let plain = is_escaped (h ∷ l ∷ rest) in if b == b'%' then escape else plain

unfoldable pub validate_percent_encoding : Text → Result (Unit {0})
validate_percent_encoding input =
    if is_escaped (as_bytes input)
    then ok tt
    else err (notify_error (codes "malformed percent encoding"))

-- `input.replace('+', " ")`
unfoldable pub plus_to_space : Text → Text
plus_to_space s = map (λ c. if c == b'+' then b' ' else c) s

-- `pair.split_once('=').unwrap_or((pair, ""))`
unfoldable pub split_pair : Text → Text × Text
split_pair pair = elim (split_once pair b'=') [ none ↦ (pair, []) | some kv ↦ kv ]

-- `map_or(0, str::len)`
abbrev pub encoded_len : Option Text → ℕ
encoded_len none = 0
encoded_len (some s) = len s

module _ (p : PercentDecode) where
  unfoldable pub decode_component : Text → Result Text
  decode_component input = do
    validate_percent_encoding input
    ok_or (p.decode_utf8 (plus_to_space input))
        (notify_error (codes "form field is not valid UTF-8"))

  -- one pair of `parse_source`
  unfoldable pub parse_pair : NotifySource → Text → Result RawNotifyEntry
  parse_pair source pair = do
    key ← decode_component (split_pair pair).0
    if is_nil key then err (notify_error (codes "notification field name is empty")) else do
      value ← decode_component (split_pair pair).1
      ok (record { key = key; value = value; source = source })

  -- the loop of `parse_source`
  unfoldable pub parse_pairs :
      NotifySource → ℕ → List Text → List RawNotifyEntry → Result (List RawNotifyEntry)
  parse_pairs source max_fields [] entries = ok entries
  parse_pairs source max_fields ([] ∷ pairs) entries = parse_pairs source max_fields pairs entries
  parse_pairs source max_fields ((c ∷ pair) ∷ pairs) entries =
      if leb max_fields (length entries)
      then err
          (notify_error (codes "notification exceeds " ++ to_string max_fields ++ codes " fields"))
      else do
        entry ← parse_pair source (c ∷ pair)
        parse_pairs source max_fields pairs (entries ++ entry ∷ [])

  unfoldable pub parse_source :
      Option Text → NotifySource → ℕ → List RawNotifyEntry → Result (List RawNotifyEntry)
  parse_source none source max_fields entries = ok entries
  parse_source (some input) source max_fields entries =
      if is_nil input then ok entries else parse_pairs source max_fields (split input b'&') entries

  -- `parse_raw_notify_params_with_limits`
  unfoldable pub parse_raw_with_limits :
      Option Text → Option Text → NotifyLimits → Result (List RawNotifyEntry)
  parse_raw_with_limits q body limits =
      if ltb limits.max_encoded_bytes (encoded_len q + encoded_len body)
      then err (
          notify_error (
            codes "encoded notification exceeds "
            ++ to_string limits.max_encoded_bytes
            ++ codes " bytes"))
      else do
        entries ← parse_source q NotifySource.query limits.max_fields []
        parse_source body NotifySource.form limits.max_fields entries

  -- `parse_raw_notify_params`
  unfoldable pub parse_raw : Option Text → Option Text → Result (List RawNotifyEntry)
  parse_raw q body = parse_raw_with_limits q body default_limits
