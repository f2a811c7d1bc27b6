-- ===== src/Payment.antt =====
-- payment.rs: the two kinds of payment request. Their setters and the helpers of their `Debug` output
-- are in Payment/Request.antt.
pub mod Request
pub mod Callbacks
pub mod Valid
pub mod Response
pub mod Form
use epay_sdk_rust.Common.{not, Option, none, some, if◌then◌else◌, is_nil}
use epay_sdk_rust.Text.{Text, trim}
use epay_sdk_rust.Text.IpAddr.{is_ip_addr}
use epay_sdk_rust.Types.{PayType, Device}
use epay_sdk_rust.Crates.Decimals.{Decimals}
use epay_sdk_rust.Crates.UrlCrate.{UrlCrate}
use epay_sdk_rust.Error.{Error, Result, ok, err, ◌>>=◌, ◌>>◌}
use epay_sdk_rust.Error.Codes.{missing_client_ip, invalid_client_ip}
use epay_sdk_rust.Validation.{
  validate_out_trade_no, validate_pay_type, validate_name, validate_param, validate_device,
  validate_sitename,
}
use epay_sdk_rust.Money.{Money}
use epay_sdk_rust.Config.{Config}
use Callbacks.{ResolvedCallbacks, resolve_callbacks, validate_callback_overrides}

-- `if let Some(value) = … { check(value)?; }`
unfoldable pub check_opt {ℓ} : {A : Type ℓ} → (A → Result (Unit {0})) → Option A → Result (Unit {0})
check_opt check none = ok tt
check_opt check (some value) = check value

-- the match on the payer's address in `PaymentRequest::validate`
unfoldable pub validate_client_ip : Option Text → Result (Unit {0})
validate_client_ip none = err missing_client_ip
validate_client_ip (some raw) =
    if is_nil (trim raw)
    then err missing_client_ip
    else if not (is_ip_addr (trim raw))
    then err invalid_client_ip
    else ok tt

module _ (dec : Decimals) where
  pub record PaymentRequest : Type 0 where
    pub pay_type : PayType
    pub out_trade_no : Text
    pub notify_url : Option Text
    pub return_url : Option Text
    pub name : Text
    pub money : Money dec
    pub client_ip : Option Text
    pub device : Option Device
    pub param : Option Text

  -- `PaymentRequest::new`
  unfoldable pub new_payment : PayType → Text → Text → Money dec → PaymentRequest
  new_payment pay_type out_trade_no name money = record {
    pay_type = pay_type;
    out_trade_no = out_trade_no;
    notify_url = none;
    return_url = none;
    name = name;
    money = money;
    client_ip = none;
    device = none;
    param = none;
  }

  pub record FormPaymentRequest : Type 0 where
    pub pay_type : Option PayType
    pub out_trade_no : Text
    pub notify_url : Option Text
    pub return_url : Option Text
    pub name : Text
    pub money : Money dec
    pub param : Option Text
    pub sitename : Option Text

module _ (dec : Decimals) (c : UrlCrate) where
  -- `PaymentRequest::validate`
  unfoldable pub validate_payment : PaymentRequest dec → Result (Unit {0})
  validate_payment req = do
    validate_out_trade_no req.out_trade_no
    validate_pay_type req.pay_type
    validate_callback_overrides c req.notify_url req.return_url
    validate_name req.name
    check_opt validate_param req.param
    validate_client_ip req.client_ip
    check_opt validate_device req.device

  -- `PaymentRequest::prepare`
  unfoldable pub prepare_payment : PaymentRequest dec → Config c → Result ResolvedCallbacks
  prepare_payment req config = do
    validate_payment req
    resolve_callbacks c req.notify_url req.return_url config

  -- `FormPaymentRequest::validate`
  unfoldable pub validate_form : FormPaymentRequest dec → Result (Unit {0})
  validate_form req = do
    validate_out_trade_no req.out_trade_no
    validate_callback_overrides c req.notify_url req.return_url
    validate_name req.name
    check_opt validate_pay_type req.pay_type
    check_opt validate_param req.param
    check_opt validate_sitename req.sitename

  -- `FormPaymentRequest::prepare`
  unfoldable pub prepare_form : FormPaymentRequest dec → Config c → Result ResolvedCallbacks
  prepare_form req config = do
    validate_form req
    resolve_callbacks c req.notify_url req.return_url config
