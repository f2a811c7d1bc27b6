-- ===== src/Order.antt =====
-- order.rs: order queries and the rows that they return. `extra` members and the `Debug` output are
-- left out, as is `generate_out_trade_no`'s clock and counter, whose readings are arguments.
pub mod Checked
pub mod Paging
use epay_sdk_rust.Common.{
  ℕ, suc, ◌+◌, ◌-◌, ◌/◌, ◌%◌, ◌^◌, max, Bool, not, Option, none, some, List, [], ◌∷◌, ◌++◌, ltb,
  leb, ◌==◌, if◌then◌else◌, length,
}
use epay_sdk_rust.Text.{Text, codes, text_eq}
use epay_sdk_rust.Common.Int.{ℤ, is_negative}
use epay_sdk_rust.Text.Decimal.{to_string}
use epay_sdk_rust.Types.{OrderStatus, from_i32, is_paid}
use epay_sdk_rust.Endpoint.{Endpoint}
use epay_sdk_rust.Crates.Decimals.{Decimals}
use epay_sdk_rust.Error.{Error, Result, ok, err, ◌>>=◌, ◌>>◌, map_err, invalid_response_message}
use epay_sdk_rust.Validation.{
  Identifier, exactly_one_identifier, validate_out_trade_no, validate_trade_no,
}
use epay_sdk_rust.Money.{Money, from_yuan_str}

pub record OrderQueryRequest : Type 0 where
  pub trade_no : Option Text
  pub out_trade_no : Option Text

-- `OrderQueryRequest::out_trade_no`, `OrderQueryRequest::trade_no`
unfoldable pub by_out_trade_no : Text → OrderQueryRequest
by_out_trade_no no' = record { trade_no = none; out_trade_no = some no' }

unfoldable pub by_trade_no : Text → OrderQueryRequest
by_trade_no no' = record { trade_no = some no'; out_trade_no = none }

-- `OrderQueryRequest::identifier`
unfoldable pub identifier : OrderQueryRequest → Result Identifier
identifier request = exactly_one_identifier request.trade_no request.out_trade_no

pub record OrderDetail : Type 0 where
  pub trade_no : Text
  pub out_trade_no : Text
  pub api_trade_no : Text
  pub pay_type : Text
  pub pid : ℕ
  pub add_time : Text
  pub end_time : Text
  pub name : Text
  pub money : Text
  pub status : ℤ
  pub param : Text
  pub buyer : Text

-- `OrderDetail::status`
unfoldable pub order_status : OrderDetail → OrderStatus
order_status order = from_i32 order.status

-- `OrderDetail::is_paid`
unfoldable pub is_paid_order : OrderDetail → Bool
is_paid_order order = is_paid (order_status order)

-- `OrderListResponse`
pub record OrderListResponse : Type 0 where
  pub count : ℤ
  pub orders : List OrderDetail

abbrev pub mismatch : Endpoint → Text → Error
mismatch endpoint message = invalid_response_message endpoint message

-- the match on the identifier in `OrderDetail::validate_success`
unfoldable pub check_identifier : OrderDetail → Identifier → Result (Unit {0})
check_identifier order (Identifier.trade_no expected) =
    if text_eq order.trade_no expected
    then ok tt
    else err (mismatch Endpoint.query_order (codes "returned trade_no does not match the request"))
check_identifier order (Identifier.out_trade_no expected) =
    if text_eq order.out_trade_no expected
    then ok tt
    else err
        (mismatch Endpoint.query_order (codes "returned out_trade_no does not match the request"))

module _ (dec : Decimals) where
  -- `OrderDetail::amount`
  unfoldable pub amount : OrderDetail → Result (Money dec)
  amount order = from_yuan_str dec order.money

  -- `OrderDetail::validate_row`
  unfoldable pub validate_row : Endpoint → ℕ → OrderDetail → Result (Unit {0})
  validate_row endpoint pid order = do
    map_err (validate_trade_no order.trade_no)
        (mismatch endpoint (codes "returned trade_no is invalid"))
    map_err (validate_out_trade_no order.out_trade_no)
        (mismatch endpoint (codes "returned out_trade_no is invalid"))
    (if order.pid == pid
        then ok tt
        else err (mismatch endpoint (codes "returned pid does not match the configured pid")))
    _ ← map_err (amount order) (mismatch endpoint (codes "returned money is invalid"))
    ok tt

  -- `OrderDetail::validate_success`
  unfoldable pub validate_order : OrderQueryRequest → ℕ → OrderDetail → Result (Unit {0})
  validate_order request pid order = do
    id ← identifier request
    check_identifier order id
    validate_row Endpoint.query_order pid order

  -- the loop of `OrderListResponse::validate_success`
  unfoldable pub validate_rows : Endpoint → ℕ → List OrderDetail → Result (Unit {0})
  validate_rows endpoint pid [] = ok tt
  validate_rows endpoint pid (order ∷ orders) = do
    validate_row endpoint pid order
    validate_rows endpoint pid orders

  -- `OrderListResponse::validate_success`
  unfoldable pub validate_orders : ℕ → OrderListResponse → Result (Unit {0})
  validate_orders pid list =
      if is_negative list.count
      then err (mismatch Endpoint.query_orders (codes "returned count is negative"))
      else validate_rows Endpoint.query_orders pid list.orders

-- `u32::MAX`
abbrev pub u32_max : ℕ
u32_max = 2 ^ 32 - 1

-- `u32::clamp(1, 50)`
unfoldable pub clamp_limit : ℕ → ℕ
clamp_limit limit = if ltb limit 1 then 1 else if ltb 50 limit then 50 else limit

-- `u32::saturating_add(1)`
unfoldable pub saturating_suc : ℕ → ℕ
saturating_suc page = if ltb page u32_max then suc page else u32_max

-- `OrderListResponse::has_more`
unfoldable pub has_more : OrderListResponse → ℕ → Bool
has_more list limit = leb (clamp_limit limit) (length list.orders)

-- `OrderListResponse::next_page`
unfoldable pub next_page : OrderListResponse → ℕ → ℕ → Option ℕ
next_page list page limit = if has_more list limit then some (saturating_suc (max page 1)) else none

-- `{:04}`
unfoldable pub four_digits : ℕ → Text
four_digits n =
    (b'0' + n / 1000 % 10) ∷ (b'0' + n / 100 % 10) ∷ (b'0' + n / 10 % 10) ∷ (b'0' + n % 10) ∷ []

-- `generate_out_trade_no`: the nanoseconds since the epoch, `none` before it, and the counter's
-- value before the call; with the counter after it, which wraps at 2 ^ 32.
unfoldable pub generate_out_trade_no : Text → Option ℕ → ℕ → Result Text × ℕ
generate_out_trade_no prefix' none counter =
    (err (Error.param (codes "system clock is before the Unix epoch")), counter)
generate_out_trade_no prefix' (some nanos) counter =
    let value = prefix' ++ to_string nanos ++ four_digits (counter % 10_000) in
    ((do validate_out_trade_no value; ok value), (counter + 1) % 2 ^ 32)
