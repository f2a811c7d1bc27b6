-- ===== src/Types/Wire.antt =====
-- The wire values of the enums of types.rs.
use epay_sdk_rust.Common.{zero, suc, ◌≡◌, ◌↔◌, true, arith}
use epay_sdk_rust.Common.Int.{ℤ, pos, negsuc}
use epay_sdk_rust.Text.{Text, codes}
use epay_sdk_rust.Text.Laws.{text_eq_iff}
use epay_sdk_rust.Types.{
  pay_type_as_str, pay_type_from, alipay_name, wxpay_name, qqpay_name, device_as_str, device_from,
  from_i32, as_i32, is_paid,
}

-- Every payment channel name survives being read and written again, known or not.
pay_type_as_str-pay_type_from : (s : Text) → pay_type_as_str (pay_type_from s) ≡ s
unfolding pay_type_as_str pay_type_from
pay_type_as_str-pay_type_from s =
    ground (arith, text_eq_iff s alipay_name, text_eq_iff s wxpay_name, text_eq_iff s qqpay_name)

-- Every device name survives being read and written again, known or not.
pub device_as_str-device_from : (s : Text) → device_as_str (device_from s) ≡ s
unfolding device_as_str device_from
device_as_str-device_from s = ground (
  arith,
  text_eq_iff s (codes "pc"),
  text_eq_iff s (codes "mobile"),
  text_eq_iff s (codes "wechat"),
  text_eq_iff s alipay_name,
)

-- The wire integer of an order status is kept, and exactly `1` is paid.
pub as_i32-from_i32 :
    (v : ℤ) → (as_i32 (from_i32 v) ≡ v) × ((is_paid (from_i32 v) ≡ true) ↔ (v ≡ pos 1))
unfolding as_i32 from_i32 is_paid
as_i32-from_i32 (pos zero) = ground arith
as_i32-from_i32 (pos (suc zero)) = ground arith
as_i32-from_i32 (pos (suc (suc n))) = ground arith
as_i32-from_i32 (negsuc n) = ground arith
