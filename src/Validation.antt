-- ===== src/Validation.antt =====
-- validation.rs: the checks on request fields and on the identifiers of responses. The checks on
-- callback URLs, which use the `url` package, are in Validation/Callback.antt.
pub mod Accepts
pub mod Callback
use epay_sdk_rust.Common.{
  ℕ, Bool, not, ◌&&◌, ◌||◌, Option, none, some, ltb, leb, ◌==◌, if◌then◌else◌, all, any, is_nil,
}
use epay_sdk_rust.Text.{
  Text, codes, as_bytes, len, text_eq, is_control, is_ascii_alphanumeric, trim,
}
use epay_sdk_rust.Limits.{
  max_out_trade_no_bytes, max_name_bytes, max_param_bytes, max_sitename_bytes, max_identifier_bytes,
  max_request_bytes,
}
use epay_sdk_rust.Types.{PayType, pay_type_as_str, Device, device_as_str}
use epay_sdk_rust.Error.{Result, ok, err, ◌>>=◌, ◌>>◌}
use epay_sdk_rust.Error.Codes.{
  missing_out_trade_no, invalid_out_trade_no, invalid_trade_no, missing_name, name_too_long,
  name_has_control_chars, param_too_long, sitename_too_long, sitename_has_control_chars,
  invalid_pay_type, invalid_device, request_too_large, missing_trade_no,
}

-- `matches!(byte, b'.' | b'_' | b'|' | b'-')`, behind the alphanumerics
unfoldable pub is_out_trade_no_byte : ℕ → Bool
unfolding is_ascii_alphanumeric
is_out_trade_no_byte b = is_ascii_alphanumeric b || b == b'.' || b == b'_' || b == b'|' || b == b'-'

unfoldable pub validate_out_trade_no : Text → Result (Unit {0})
validate_out_trade_no value =
    if is_nil value
    then err missing_out_trade_no
    else if ltb max_out_trade_no_bytes (len value)
        || not (text_eq (trim value) value)
        || not (all is_out_trade_no_byte (as_bytes value))
    then err invalid_out_trade_no
    else ok tt

unfoldable pub validate_trade_no : Text → Result (Unit {0})
validate_trade_no value =
    if is_nil value
      || ltb 128 (len value)
      || not (text_eq (trim value) value)
      || not (all is_ascii_alphanumeric (as_bytes value))
    then err invalid_trade_no
    else ok tt

unfoldable pub has_control_chars : Text → Bool
unfolding is_control
has_control_chars value = any is_control value

unfoldable pub validate_name : Text → Result (Unit {0})
validate_name value =
    if is_nil (trim value)
    then err missing_name
    else if ltb max_name_bytes (len value)
    then err name_too_long
    else if has_control_chars value
    then err name_has_control_chars
    else ok tt

unfoldable pub validate_param : Text → Result (Unit {0})
validate_param value = if ltb max_param_bytes (len value) then err param_too_long else ok tt

unfoldable pub validate_sitename : Text → Result (Unit {0})
validate_sitename value =
    if ltb max_sitename_bytes (len value)
    then err sitename_too_long
    else if has_control_chars value
    then err sitename_has_control_chars
    else ok tt

unfoldable pub is_identifier_byte : ℕ → Bool
unfolding is_ascii_alphanumeric
is_identifier_byte b = is_ascii_alphanumeric b || b == b'_' || b == b'-'

unfoldable pub is_identifier : Text → Bool
is_identifier value =
    not (is_nil value)
    && leb (len value) max_identifier_bytes
    && all is_identifier_byte (as_bytes value)

unfoldable pub validate_pay_type : PayType → Result (Unit {0})
validate_pay_type value =
    if is_identifier (pay_type_as_str value) then ok tt else err invalid_pay_type

unfoldable pub validate_device : Device → Result (Unit {0})
validate_device value = if is_identifier (device_as_str value) then ok tt else err invalid_device

unfoldable pub validate_encoded_size : ℕ → Result (Unit {0})
validate_encoded_size bytes = if ltb max_request_bytes bytes then err request_too_large else ok tt

pub data Identifier : Type 0 where
  trade_no : Text → Identifier
  out_trade_no : Text → Identifier

-- `Identifier::as_param`
unfoldable pub as_param : Identifier → Text × Text
as_param (Identifier.trade_no value) = (codes "trade_no", value)
as_param (Identifier.out_trade_no value) = (codes "out_trade_no", value)

-- `option.filter(|value| !value.is_empty())`
unfoldable pub non_empty : Option Text → Option Text
non_empty none = none
non_empty (some value) = if is_nil value then none else some value

-- the match of `exactly_one_identifier`
unfoldable pub one_of : Option Text → Option Text → Result Identifier
one_of (some t) none = do validate_trade_no t; ok (Identifier.trade_no t)
one_of none (some o) = do validate_out_trade_no o; ok (Identifier.out_trade_no o)
one_of none none = err missing_trade_no
one_of (some t) (some o) = err missing_trade_no

unfoldable pub exactly_one_identifier : Option Text → Option Text → Result Identifier
unfolding non_empty one_of
exactly_one_identifier t o = one_of (non_empty t) (non_empty o)
