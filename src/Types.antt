-- ===== src/Types.antt =====
-- types.rs: the protocol's enums and constants.
pub mod Wire
use epay_sdk_rust.Common.{zero, suc, Bool, true, false, if◌then◌else◌}
use epay_sdk_rust.Common.Int.{ℤ, pos, negsuc}
use epay_sdk_rust.Text.{Text, codes, text_eq}

pub data PayType : Type 0 where
  alipay wxpay qqpay : PayType
  other : Text → PayType

abbrev pub alipay_name : Text
alipay_name = codes "alipay"

abbrev pub wxpay_name : Text
wxpay_name = codes "wxpay"

abbrev pub qqpay_name : Text
qqpay_name = codes "qqpay"

-- `PayType::as_str`
unfoldable pub pay_type_as_str : PayType → Text
pay_type_as_str PayType.alipay = alipay_name
pay_type_as_str PayType.wxpay = wxpay_name
pay_type_as_str PayType.qqpay = qqpay_name
pay_type_as_str (PayType.other s) = s

-- `PayType::display_name`
unfoldable pub display_name : PayType → Text
display_name PayType.alipay = codes "支付宝"
display_name PayType.wxpay = codes "微信支付"
display_name PayType.qqpay = codes "QQ钱包"
display_name (PayType.other s) = s

-- `impl From<&str> for PayType`
unfoldable pub pay_type_from : Text → PayType
pay_type_from s =
    if text_eq s alipay_name
    then PayType.alipay
    else if text_eq s wxpay_name
    then PayType.wxpay
    else if text_eq s qqpay_name
    then PayType.qqpay
    else PayType.other s

pub data Device : Type 0 where
  pc mobile wechat alipay : Device
  other : Text → Device

-- `Device::as_str`
unfoldable pub device_as_str : Device → Text
device_as_str Device.pc = codes "pc"
device_as_str Device.mobile = codes "mobile"
device_as_str Device.wechat = codes "wechat"
device_as_str Device.alipay = alipay_name
device_as_str (Device.other s) = s

-- `impl From<&str> for Device`
unfoldable pub device_from : Text → Device
device_from s =
    if text_eq s (codes "pc")
    then Device.pc
    else if text_eq s (codes "mobile")
    then Device.mobile
    else if text_eq s (codes "wechat")
    then Device.wechat
    else if text_eq s alipay_name
    then Device.alipay
    else Device.other s

pub record TradeStatus : Type 0 where
  pub value : Text

abbrev pub trade_success : Text
trade_success = codes "TRADE_SUCCESS"

-- `TradeStatus::is_success`
unfoldable pub is_success : TradeStatus → Bool
is_success s = text_eq s.value trade_success

pub data OrderStatus : Type 0 where
  unpaid paid : OrderStatus
  other : ℤ → OrderStatus

-- `OrderStatus::from_i32`
unfoldable pub from_i32 : ℤ → OrderStatus
from_i32 (pos zero) = OrderStatus.unpaid
from_i32 (pos (suc zero)) = OrderStatus.paid
from_i32 (pos (suc (suc n))) = OrderStatus.other (pos (suc (suc n)))
from_i32 (negsuc n) = OrderStatus.other (negsuc n)

-- `OrderStatus::is_paid`
unfoldable pub is_paid : OrderStatus → Bool
is_paid OrderStatus.paid = true
is_paid _ = false

-- `OrderStatus::as_i32`
unfoldable pub as_i32 : OrderStatus → ℤ
as_i32 OrderStatus.unpaid = pos 0
as_i32 OrderStatus.paid = pos 1
as_i32 (OrderStatus.other v) = v

-- the module `path`
abbrev pub mapi_path : Text
mapi_path = codes "/mapi.php"

abbrev pub submit_path : Text
submit_path = codes "/submit.php"

abbrev pub api_path : Text
api_path = codes "/api.php"

abbrev pub notify_success : Text
notify_success = codes "success"

abbrev pub notify_fail : Text
notify_fail = codes "fail"
