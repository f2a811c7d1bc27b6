-- ===== src/Server.antt =====
-- src/examples/axum_server.rs: the shop that the repository shows. The orders are a `HashMap` behind
-- a lock, here a map by order number; a handler takes them, with the counter of the order numbers,
-- and returns them. The text of an error is left out: a failure keeps the error itself.
pub mod History
pub mod Settled
pub mod Repeated
pub mod Handlers
use epay_sdk_rust.Common.{ℕ, Bool, true, false, Option, none, some, List, []}
use epay_sdk_rust.Text.{Text}
use epay_sdk_rust.Text.IpAddr.{IpAddr}
use epay_sdk_rust.Types.{PayType, pay_type_from, Device}
use epay_sdk_rust.BTreeMap
use epay_sdk_rust.Crates.Http.{HttpCrate}
use epay_sdk_rust.Crates.SerdeJson.{SerdeJson}
use epay_sdk_rust.Error.{Error, Result, ok, err, ◌>>=◌}
use epay_sdk_rust.Money.{Money, from_yuan_str, to_epay_string}
use epay_sdk_rust.Notify.Verify.{NotifyData, SuccessfulNotify, money_matches, try_into_success}
use epay_sdk_rust.Payment.{PaymentRequest, FormPaymentRequest, new_payment}
use epay_sdk_rust.Payment.Request.{new_form, set_form_pay_type, set_device, set_client_ip_addr}
use epay_sdk_rust.Payment.Response.{PaymentResponse}
use epay_sdk_rust.Order.{
  OrderQueryRequest, OrderDetail, by_out_trade_no, by_trade_no, is_paid_order,
  generate_out_trade_no,
}
use epay_sdk_rust.Protocol.{Packages}
use epay_sdk_rust.Transport.{Transport}
use epay_sdk_rust.Axum.{NotifyAck, ack_ok, ack_fail, payer_ip}
use epay_sdk_rust.Client.Call.{Client}
use epay_sdk_rust.Client.Facade.{Decoder, create_payment, query_order, client_form, client_form_url}

-- a reply with a value, or a status with the error whose text it shows
pub data Reply (T : Type 0) : Type 0 where
  answered : (value : T) → Reply T
  refused : (status : ℕ) (error : Error) → Reply T
  bad_request : (message : Text) → Reply T

-- `internal`
unfoldable pub internal : {T : Type 0} → Result T → Reply T
internal (ok value) = answered value
internal (err error) = refused 500 error

module _ (pkg : Packages) where
  -- `Order`
  pub record Order : Type 0 where
    pub out_trade_no : Text
    pub trade_no : Text
    pub name : Text
    pub money : Money pkg.dec
    pub pay_type : Text
    pub paid : Bool

  -- `AppState`, less the client, which never changes
  pub record Shop : Type 0 where
    pub orders : List (Text × Order)
    pub counter : ℕ

  -- `PayQuery`
  pub record PayQuery : Type 0 where
    pub pay_type : Text
    pub name : Text
    pub money : Text

  -- `remember`
  unfoldable pub remember :
      Text → Text → Money pkg.dec → Text → List (Text × Order) → List (Text × Order)
  remember no' name money pay_type orders =
      BTreeMap.insert no'
        (record {
          out_trade_no = no';
          trade_no = [];
          name = name;
          money = money;
          pay_type = pay_type;
          paid = false;
        })
        orders

  -- what `notify` does behind its amount test
  unfoldable pub settle_amount :
      Bool → NotifyData pkg.dec → Order → List (Text × Order) → NotifyAck × List (Text × Order)
  settle_amount false data' order orders = (ack_fail, orders)
  settle_amount true data' order orders = (
    ack_ok,
    BTreeMap.insert data'.out_trade_no (record order { paid = true; trade_no = data'.trade_no })
        orders,
  )

  -- the match on the order in `notify`
  unfoldable pub settle_order :
      NotifyData pkg.dec → Option Order → List (Text × Order) → NotifyAck × List (Text × Order)
  settle_order data' none orders = (ack_fail, orders)
  settle_order data' (some order) orders =
      settle_amount (money_matches pkg.dec data' order.money) data' order orders

  -- the match on `try_into_success` in `notify`
  unfoldable pub settle_success :
      Result (SuccessfulNotify pkg.dec) → List (Text × Order) → NotifyAck × List (Text × Order)
  settle_success (err _) orders = (ack_fail, orders)
  settle_success (ok successful) orders =
      settle_order successful.notify (BTreeMap.lookup successful.notify.out_trade_no orders) orders

  -- `notify`, on the data of the extractor
  unfoldable pub notify : NotifyData pkg.dec → List (Text × Order) → NotifyAck × List (Text × Order)
  notify data' orders = settle_success (try_into_success pkg.dec data') orders

  -- `get_mut` and `clone_from` behind a created payment
  unfoldable pub number_found :
      Text → Text → Option Order → List (Text × Order) → List (Text × Order)
  number_found no' trade_no none orders = orders
  number_found no' trade_no (some order) orders =
      BTreeMap.insert no' (record order { trade_no = trade_no }) orders

  unfoldable pub set_trade_no : Text → Text → List (Text × Order) → List (Text × Order)
  set_trade_no no' trade_no orders = number_found no' trade_no (BTreeMap.lookup no' orders) orders
