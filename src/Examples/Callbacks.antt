-- ===== src/Examples/Callbacks.antt =====
-- Configurations, callbacks and payment requests.
use epay_sdk_rust.Common.{◌*◌, refl, false, none, some}
use epay_sdk_rust.Text.{Text, codes, len, text_eq, trim, trim_end_matches}
use epay_sdk_rust.Common.Int.{pos}
use epay_sdk_rust.Types.{PayType}
use epay_sdk_rust.Crates.Decimals.{cent}
use epay_sdk_rust.Crates.Decimals.Toy.{toy_decimals}
use epay_sdk_rust.Crates.UrlCrate.Toy.{toy_url}
use epay_sdk_rust.Config.{ConfigParts, Config, from_parts, new_parts}
use epay_sdk_rust.Config.Strict.{IsStrict, from_parts-IsStrict}
use epay_sdk_rust.Payment.Callbacks.{
  ResolvedCallbacks, resolve_callbacks, IsResolved, resolve_callbacks-IsResolved,
}
use epay_sdk_rust.Payment.{PaymentRequest, FormPaymentRequest, prepare_payment, prepare_form}
use epay_sdk_rust.Payment.Valid.{IsPayable, prepare_payment-IsPayable}

abbrev pub parts : ConfigParts
parts = record {
  pid = 1001;
  key = codes "secret";
  api_base_url = codes "https://pay.example.com";
  debug = false;
  notify_url = some (codes "https://shop.example.com/notify");
  return_url = none;
  allow_insecure_http = false;
  allow_insecure_callback_http = false;
}

abbrev pub config : Config toy_url
unfolding toy_url
config = record {
  pid = 1001;
  key = codes "secret";
  api_base_url = record {
    scheme_part = codes "https";
    host_part = codes "pay.example.com";
    path_part = codes "/";
    query_part = none;
  };
  debug = false;
  notify_url = some (record {
    scheme_part = codes "https";
    host_part = codes "shop.example.com";
    path_part = codes "/notify";
    query_part = none;
  });
  return_url = none;
  allow_insecure_http = false;
  allow_insecure_callback_http = false;
}

from_parts-IsStrict_example : IsStrict toy_url parts config
unfolding toy_url from_parts trim epay_sdk_rust.Config.validate_api_base_url
    epay_sdk_rust.Config.validate_api_scheme text_eq epay_sdk_rust.Config.has_extras
    epay_sdk_rust.Config.callback_default epay_sdk_rust.Config.parse_callback_url
    epay_sdk_rust.Config.is_callback_url epay_sdk_rust.Config.require_https_callback
    epay_sdk_rust.Config.normalized_path trim_end_matches
from_parts-IsStrict_example = from_parts-IsStrict toy_url parts config refl

abbrev pub callbacks : ResolvedCallbacks
callbacks = record { notify_url = codes "https://shop.example.com/notify"; return_url = none }

resolve_callbacks-IsResolved_example : IsResolved toy_url config (some (codes " ")) none callbacks
unfolding toy_url resolve_callbacks epay_sdk_rust.Payment.Callbacks.first_non_blank
    epay_sdk_rust.Payment.Callbacks.non_blank_opt epay_sdk_rust.Payment.Callbacks.non_blank trim
    epay_sdk_rust.Validation.Callback.enforce_notify_url_policy
    epay_sdk_rust.Validation.Callback.validate_callback_length len
    epay_sdk_rust.Config.parse_callback_url epay_sdk_rust.Config.is_callback_url text_eq
    epay_sdk_rust.Config.require_https_callback epay_sdk_rust.Payment.Callbacks.enforce_return
resolve_callbacks-IsResolved_example =
    resolve_callbacks-IsResolved toy_url config (some (codes " ")) none refl

abbrev pub payment : PaymentRequest toy_decimals
unfolding toy_decimals
payment = record {
  pay_type = PayType.alipay;
  out_trade_no = codes "A-1";
  notify_url = none;
  return_url = none;
  name = codes "tea";
  money = record { value = pos (1000 * cent) };
  client_ip = some (codes "127.0.0.1");
  device = none;
  param = none;
}

prepare_payment-IsPayable_example : IsPayable toy_decimals toy_url config payment callbacks
unfolding toy_url toy_decimals prepare_payment epay_sdk_rust.Payment.validate_payment
    epay_sdk_rust.Validation.validate_out_trade_no len text_eq trim
    epay_sdk_rust.Validation.is_out_trade_no_byte epay_sdk_rust.Validation.validate_pay_type
    epay_sdk_rust.Validation.is_identifier epay_sdk_rust.Types.pay_type_as_str
    epay_sdk_rust.Validation.is_identifier_byte
    epay_sdk_rust.Payment.Callbacks.validate_callback_overrides
    epay_sdk_rust.Payment.Callbacks.validate_notify_override
    epay_sdk_rust.Payment.Callbacks.first_non_blank epay_sdk_rust.Payment.Callbacks.non_blank_opt
    epay_sdk_rust.Payment.Callbacks.validate_return_override epay_sdk_rust.Validation.validate_name
    epay_sdk_rust.Validation.has_control_chars epay_sdk_rust.Config.is_callback_url
    epay_sdk_rust.Config.parse_callback_url epay_sdk_rust.Config.require_https_callback
    epay_sdk_rust.Payment.Callbacks.enforce_return epay_sdk_rust.Payment.Callbacks.non_blank
    resolve_callbacks epay_sdk_rust.Payment.check_opt epay_sdk_rust.Payment.validate_client_ip
    epay_sdk_rust.Text.IpAddr.is_ip_addr epay_sdk_rust.Text.IpAddr.parse_ip
    epay_sdk_rust.Text.IpAddr.read_digits epay_sdk_rust.Text.IpAddr.read_ipv4_addr
    epay_sdk_rust.Text.IpAddr.read_number epay_sdk_rust.Text.IpAddr.read_octets
    epay_sdk_rust.Text.IpAddr.read_separator epay_sdk_rust.Text.IpAddr.to_digit
    epay_sdk_rust.Validation.Callback.enforce_notify_url_policy
    epay_sdk_rust.Validation.Callback.validate_callback_length
prepare_payment-IsPayable_example =
    prepare_payment-IsPayable toy_decimals toy_url config payment refl
