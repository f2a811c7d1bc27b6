-- ===== src/Examples/Amounts.antt =====
-- Amounts, orders and the merchant's profile.
use epay_sdk_rust.Common.{◌*◌, ◌≡◌, refl, ◌↔◌, true, false, none, some, [], ◌∷◌, arith, All}
use epay_sdk_rust.Text.{codes}
use epay_sdk_rust.Common.Int.{ℤ, pos, is_negative}
use epay_sdk_rust.Crates.Decimals.{cent, cents_text}
use epay_sdk_rust.Crates.Decimals.Toy.{toy_decimals}
use epay_sdk_rust.Error.{ok}
use epay_sdk_rust.Validation.{Identifier}
use epay_sdk_rust.Money.{Money, from_yuan_str, from_fen, try_to_fen, to_epay_string, money_eq}
use epay_sdk_rust.Money.RoundTrip.{try_to_fen-from_fen, from_yuan_str-to_epay_string}
use epay_sdk_rust.Order.{
  OrderQueryRequest, OrderDetail, OrderListResponse, identifier, validate_order, validate_orders,
}
use epay_sdk_rust.Order.Checked.{Names, IsRow, validate_order_iff, validate_orders_iff}
use epay_sdk_rust.Merchant.{SettlementListResponse, validate_settlements}
use epay_sdk_rust.Merchant.Checked.{IsSettled, validate_settlements_iff}

-- ten yuan, as the small instance of the decimals holds them
abbrev ten : ℤ
ten = pos (1000 * cent)

abbrev ten_yuan : Money toy_decimals
unfolding toy_decimals
ten_yuan = record { value = ten }

abbrev ten_decimal : toy_decimals.Decimal
unfolding toy_decimals
ten_decimal = ten

try_to_fen-from_fen_example :
    (m : Money toy_decimals) × (from_fen toy_decimals (pos 1000) ≡ ok m)
    × (try_to_fen toy_decimals m ≡ ok (pos 1000))
try_to_fen-from_fen_example = try_to_fen-from_fen toy_decimals 1000 (omega arith) (omega arith)

from_yuan_str-to_epay_string_example :
    (to_epay_string toy_decimals ten_yuan ≡ cents_text 1000)
    × ((m : Money toy_decimals) × (from_yuan_str toy_decimals (to_epay_string toy_decimals ten_yuan)
          ≡ ok m)
        × (money_eq toy_decimals m ten_yuan ≡ true))
unfolding toy_decimals
from_yuan_str-to_epay_string_example =
    from_yuan_str-to_epay_string toy_decimals ten_yuan 1000 (omega arith) (omega arith) refl

abbrev order : OrderDetail
order = record {
  trade_no = codes "T1";
  out_trade_no = codes "A-1";
  api_trade_no = [];
  pay_type = codes "alipay";
  pid = 1001;
  add_time = [];
  end_time = [];
  name = codes "tea";
  money = codes "10.00";
  status = pos 1;
  param = [];
  buyer = [];
}

abbrev by_number : OrderQueryRequest
by_number = record { trade_no = none; out_trade_no = some (codes "A-1") }

validate_order_iff_example : (validate_order toy_decimals by_number 1001 order ≡ ok tt) ↔ (
    ((id : Identifier) × (identifier by_number ≡ ok id) × Names order id)
    × IsRow toy_decimals 1001 order)
validate_order_iff_example = validate_order_iff toy_decimals by_number 1001 order

abbrev page : OrderListResponse
page = record { count = pos 1; orders = order ∷ [] }

validate_orders_iff_example :
    (validate_orders toy_decimals 1001 page ≡ ok tt)
    ↔ ((is_negative (pos 1) ≡ false) × All (IsRow toy_decimals 1001) (order ∷ []))
validate_orders_iff_example = validate_orders_iff toy_decimals 1001 page

abbrev settled : SettlementListResponse
settled = record {
  count = pos 1;
  settlements =
      record {
        id = pos 1;
        uid = 0;
        money = codes "1.00";
        account = [];
        status = pos 1;
        add_time = [];
      }
      ∷ [];
}

validate_settlements_iff_example :
    (validate_settlements toy_decimals 1001 settled ≡ ok tt)
    ↔ ((is_negative settled.count ≡ false) × All (IsSettled toy_decimals 1001) settled.settlements)
validate_settlements_iff_example = validate_settlements_iff toy_decimals 1001 settled
