-- ===== src/Payment/Request.antt =====
-- payment.rs: the setters of the requests, and the helpers of their `Debug` output.
use epay_sdk_rust.Common.{Option, none, some, [], ◌∷◌, ◌++◌}
use epay_sdk_rust.Text.{Text, codes, len}
use epay_sdk_rust.Text.Decimal.{to_string}
use epay_sdk_rust.Text.IpAddr.{IpAddr}
use epay_sdk_rust.Text.IpAddr.Show.{show_ip}
use epay_sdk_rust.Types.{PayType, Device}
use epay_sdk_rust.Crates.Decimals.{Decimals}
use epay_sdk_rust.Crates.UrlCrate.{UrlCrate}
use epay_sdk_rust.Params.{Params}
use epay_sdk_rust.Params.Redacted.{redact_url_query}
use epay_sdk_rust.Money.{Money}
use epay_sdk_rust.Payment.{PaymentRequest, FormPaymentRequest}
use epay_sdk_rust.Payment.Form.{PreparedForm}
use epay_sdk_rust.Payment.Response.{PaymentDestination}

-- `debug_len`
unfoldable pub debug_len : Option Text → Option Text
debug_len none = none
debug_len (some value) = some (codes "<" ++ to_string (len value) ++ codes " bytes>")

module _ (c : UrlCrate) where
  -- `debug_url`
  unfoldable pub debug_url : Option Text → Option Text
  debug_url none = none
  debug_url (some value) = some (redact_url_query c value)

  abbrev or_nothing : Option Text → Text
  or_nothing none = []
  or_nothing (some host) = host

  -- the match on the parsed link in `debug_payment_link`
  unfoldable pub show_link : Text → Option c.Url → Text
  show_link value (some url) =
      c.scheme url ++ codes "://" ++ or_nothing (c.host_str url) ++ codes "/<redacted>"
  show_link value none = codes "<invalid url: " ++ to_string (len value) ++ codes " bytes>"

  -- `debug_payment_link`
  unfoldable pub debug_payment_link : Text → Text
  debug_payment_link [] = []
  debug_payment_link (x ∷ value) = show_link (x ∷ value) (c.parse (x ∷ value))

  -- `Debug for PaymentDestination`: the name of the variant and what is shown of the value
  unfoldable pub debug_destination : PaymentDestination → Text × Text
  debug_destination (PaymentDestination.pay_url value) = (codes "PayUrl", debug_payment_link value)
  debug_destination (PaymentDestination.qr_code value) = (codes "QrCode", debug_payment_link value)
  debug_destination (PaymentDestination.url_scheme value) =
      (codes "UrlScheme", debug_payment_link value)

  -- `PreparedForm::new`
  unfoldable pub new_prepared : c.Url → Params → PreparedForm c
  new_prepared action params = record { action = action; params = params }

  -- `PreparedForm::into_parts`
  unfoldable pub into_parts : PreparedForm c → c.Url × Params
  into_parts form = (form.action, form.params)

module _ (dec : Decimals) where
  -- `PaymentRequest::notify_url`, `PaymentRequest::return_url`
  unfoldable pub set_notify_url : Text → PaymentRequest dec → PaymentRequest dec
  set_notify_url url request = record request { notify_url = some url }

  unfoldable pub set_return_url : Text → PaymentRequest dec → PaymentRequest dec
  set_return_url url request = record request { return_url = some url }

  -- `PaymentRequest::client_ip`
  unfoldable pub set_client_ip : Text → PaymentRequest dec → PaymentRequest dec
  set_client_ip ip request = record request { client_ip = some ip }

  -- `PaymentRequest::client_ip_addr`
  unfoldable pub set_client_ip_addr : IpAddr → PaymentRequest dec → PaymentRequest dec
  set_client_ip_addr ip request = set_client_ip (show_ip ip) request

  -- `PaymentRequest::device`
  unfoldable pub set_device : Device → PaymentRequest dec → PaymentRequest dec
  set_device device request = record request { device = some device }

  -- `PaymentRequest::param`
  unfoldable pub set_param : Text → PaymentRequest dec → PaymentRequest dec
  set_param param request = record request { param = some param }

  -- `FormPaymentRequest::new`
  unfoldable pub new_form : Text → Text → Money dec → FormPaymentRequest dec
  new_form out_trade_no name money = record {
    pay_type = none;
    out_trade_no = out_trade_no;
    notify_url = none;
    return_url = none;
    name = name;
    money = money;
    param = none;
    sitename = none;
  }

  -- `FormPaymentRequest::pay_type`
  unfoldable pub set_form_pay_type : PayType → FormPaymentRequest dec → FormPaymentRequest dec
  set_form_pay_type channel request = record request { pay_type = some channel }

  -- `FormPaymentRequest::notify_url`, `FormPaymentRequest::return_url`
  unfoldable pub set_form_notify_url : Text → FormPaymentRequest dec → FormPaymentRequest dec
  set_form_notify_url url request = record request { notify_url = some url }

  unfoldable pub set_form_return_url : Text → FormPaymentRequest dec → FormPaymentRequest dec
  set_form_return_url url request = record request { return_url = some url }

  -- `FormPaymentRequest::param`
  unfoldable pub set_form_param : Text → FormPaymentRequest dec → FormPaymentRequest dec
  set_form_param param request = record request { param = some param }

  -- `FormPaymentRequest::sitename`
  unfoldable pub set_sitename : Text → FormPaymentRequest dec → FormPaymentRequest dec
  set_sitename name request = record request { sitename = some name }
