-- ===== src/Examples/Forms.antt =====
-- A form payment that is prepared and signed.
use epay_sdk_rust.Common.{◌≡◌, refl, true, none, some, All}
use epay_sdk_rust.Text.{Text, codes, trim}
use epay_sdk_rust.Crates.Decimals.{cent}
use epay_sdk_rust.Crates.Decimals.Toy.{toy_decimals}
use epay_sdk_rust.Crates.Digest.{toy_digest}
use epay_sdk_rust.Crates.UrlCrate.Toy.{ToyUrl, toy_url}
use epay_sdk_rust.Error.{ok}
use epay_sdk_rust.Params.{Params, is_unsigned, get}
use epay_sdk_rust.Signer.{sign_with_params}
use epay_sdk_rust.Signer.{verify}
use epay_sdk_rust.Params.Redacted.{encode}
use epay_sdk_rust.Notify.Canonical.{parse_notify_params}
use epay_sdk_rust.Notify.Encoded.{IsSendablePair}
use epay_sdk_rust.Notify.Encoded.Escaping.{sign_form, sign_percent, sign_codec}
use epay_sdk_rust.Payment.{FormPaymentRequest, prepare_form}
use epay_sdk_rust.Payment.Callbacks.{ResolvedCallbacks}
use epay_sdk_rust.Protocol.{Packages, ProtocolContext, unsigned_form, form_params}
use epay_sdk_rust.Protocol.Filled.{IsFilled}
use epay_sdk_rust.Protocol.Signed.{IsSignedForm, form_params-IsSignedForm}
use epay_sdk_rust.Protocol.Delivered.{form_params-delivered}
use epay_sdk_rust.Examples.{merchant, toy_packages}
use epay_sdk_rust.Examples.Callbacks.{config, callbacks, payment}

abbrev context : ProtocolContext toy_url
context = record { config = config; signer = merchant }

abbrev form_request : FormPaymentRequest toy_decimals
form_request = record {
  pay_type = none;
  out_trade_no = codes "A-1";
  notify_url = none;
  return_url = none;
  name = codes "tea";
  money = payment.money;
  param = none;
  sitename = none;
}

abbrev signed_form : Params
signed_form =
    sign_with_params toy_digest merchant (unsigned_form toy_packages context form_request callbacks)

form_params-IsSignedForm_example :
    ((c : ResolvedCallbacks) × (prepare_form toy_decimals toy_url form_request config ≡ ok c)
      × IsFilled toy_packages context form_request c signed_form)
    × IsSignedForm toy_packages context signed_form
unfolding epay_sdk_rust.Text.trim epay_sdk_rust.Text.Decimal.to_string
    epay_sdk_rust.Params.insert_opt epay_sdk_rust.Params.sign_payload epay_sdk_rust.Signer.hex_lower
    epay_sdk_rust.Signer.sign epay_sdk_rust.Signer.verify epay_sdk_rust.Signer.sign_with_params
    epay_sdk_rust.Crates.Digest.toy_digest epay_sdk_rust.Crates.Form.toy_form
    epay_sdk_rust.Crates.Decimals.cents_text epay_sdk_rust.Crates.Decimals.Toy.toy_decimals
    epay_sdk_rust.Crates.UrlCrate.Toy.toy_url epay_sdk_rust.Validation.is_out_trade_no_byte
    epay_sdk_rust.Validation.validate_out_trade_no epay_sdk_rust.Validation.has_control_chars
    epay_sdk_rust.Validation.validate_name epay_sdk_rust.Validation.validate_encoded_size
    epay_sdk_rust.Validation.Callback.validate_callback_length
    epay_sdk_rust.Validation.Callback.validate_request_size
    epay_sdk_rust.Validation.Callback.enforce_notify_url_policy
    epay_sdk_rust.Config.require_https_callback epay_sdk_rust.Config.is_callback_url
    epay_sdk_rust.Config.parse_callback_url epay_sdk_rust.Money.to_epay_string
    epay_sdk_rust.Payment.check_opt epay_sdk_rust.Payment.validate_form
    epay_sdk_rust.Payment.prepare_form epay_sdk_rust.Payment.Callbacks.non_blank
    epay_sdk_rust.Payment.Callbacks.non_blank_opt epay_sdk_rust.Payment.Callbacks.first_non_blank
    epay_sdk_rust.Payment.Callbacks.enforce_return epay_sdk_rust.Payment.Callbacks.resolve_callbacks
    epay_sdk_rust.Payment.Callbacks.validate_notify_override
    epay_sdk_rust.Payment.Callbacks.validate_return_override
    epay_sdk_rust.Payment.Callbacks.validate_callback_overrides epay_sdk_rust.Protocol.base_params
    epay_sdk_rust.Protocol.unsigned_form epay_sdk_rust.Protocol.form_params
form_params-IsSignedForm_example =
    form_params-IsSignedForm toy_packages context form_request {params = signed_form} refl

-- the same with an encoder that escapes
abbrev escaping : Packages
escaping = record toy_packages { enc = sign_form }

prepared : form_params escaping context form_request ≡ ok signed_form
unfolding epay_sdk_rust.Text.trim epay_sdk_rust.Text.Decimal.to_string
    epay_sdk_rust.Params.insert_opt epay_sdk_rust.Params.sign_payload epay_sdk_rust.Signer.hex_lower
    epay_sdk_rust.Signer.sign epay_sdk_rust.Signer.verify epay_sdk_rust.Signer.sign_with_params
    epay_sdk_rust.Crates.Digest.toy_digest epay_sdk_rust.Crates.Decimals.cents_text
    epay_sdk_rust.Crates.Decimals.Toy.toy_decimals epay_sdk_rust.Crates.UrlCrate.Toy.toy_url
    epay_sdk_rust.Validation.is_out_trade_no_byte epay_sdk_rust.Validation.validate_out_trade_no
    epay_sdk_rust.Validation.has_control_chars epay_sdk_rust.Validation.validate_name
    epay_sdk_rust.Validation.validate_encoded_size
    epay_sdk_rust.Validation.Callback.validate_callback_length
    epay_sdk_rust.Validation.Callback.validate_request_size
    epay_sdk_rust.Validation.Callback.enforce_notify_url_policy
    epay_sdk_rust.Config.require_https_callback epay_sdk_rust.Config.is_callback_url
    epay_sdk_rust.Config.parse_callback_url epay_sdk_rust.Money.to_epay_string
    epay_sdk_rust.Payment.check_opt epay_sdk_rust.Payment.validate_form
    epay_sdk_rust.Payment.prepare_form epay_sdk_rust.Payment.Callbacks.non_blank
    epay_sdk_rust.Payment.Callbacks.non_blank_opt epay_sdk_rust.Payment.Callbacks.first_non_blank
    epay_sdk_rust.Payment.Callbacks.enforce_return epay_sdk_rust.Payment.Callbacks.resolve_callbacks
    epay_sdk_rust.Payment.Callbacks.validate_notify_override
    epay_sdk_rust.Payment.Callbacks.validate_return_override
    epay_sdk_rust.Payment.Callbacks.validate_callback_overrides epay_sdk_rust.Protocol.base_params
    epay_sdk_rust.Protocol.unsigned_form epay_sdk_rust.Protocol.form_params
    epay_sdk_rust.Notify.Encoded.Escaping.sign_form
    epay_sdk_rust.Notify.Encoded.Escaping.escape_text
    epay_sdk_rust.Notify.Encoded.Escaping.escape_sign
prepared = refl

texts : All IsSendablePair signed_form.inner
unfolding epay_sdk_rust.Text.Decimal.to_string epay_sdk_rust.Params.insert_opt
    epay_sdk_rust.Params.sign_payload epay_sdk_rust.Signer.hex_lower epay_sdk_rust.Signer.sign
    epay_sdk_rust.Signer.sign_with_params epay_sdk_rust.Crates.Digest.toy_digest
    epay_sdk_rust.Crates.Decimals.cents_text epay_sdk_rust.Crates.Decimals.Toy.toy_decimals
    epay_sdk_rust.Crates.UrlCrate.Toy.toy_url epay_sdk_rust.Money.to_epay_string
    epay_sdk_rust.Protocol.base_params epay_sdk_rust.Protocol.unsigned_form
    epay_sdk_rust.Text.Utf8.from_utf8
texts = (
  (refl, refl, refl),
  (
    (refl, refl, refl),
    (
      (refl, refl, refl),
      ((refl, refl, refl), ((refl, refl, refl), ((refl, refl, refl), ((refl, refl, refl), tt)))),
    ),
  ),
)

form_params-delivered_example :
    (parse_notify_params sign_percent (some (encode sign_form signed_form)) none ≡ ok signed_form)
    × (signature : Text) × (get signed_form (codes "sign") ≡ some signature)
    × (verify toy_digest merchant signed_form signature ≡ true)
form_params-delivered_example =
    form_params-delivered escaping context sign_codec form_request prepared texts
