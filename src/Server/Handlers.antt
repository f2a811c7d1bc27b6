-- ===== src/Server/Handlers.antt =====
-- src/examples/axum_server.rs: the handlers of the pages. `nanos` is the clock's reading, and
-- `headers`, `peer` and `trust` are what `qrcode_pay` learns of the payer's address.
use epay_sdk_rust.Common.{ℕ, Bool, Option, none, some, [], ◌∷◌, ◌++◌}
use epay_sdk_rust.Text.{Text, codes}
use epay_sdk_rust.Text.IpAddr.{IpAddr}
use epay_sdk_rust.Types.{pay_type_from, Device}
use epay_sdk_rust.Crates.Http.{HttpCrate}
use epay_sdk_rust.Crates.SerdeJson.{SerdeJson}
use epay_sdk_rust.Error.{Result, ok, err, ◌>>=◌}
use epay_sdk_rust.Money.{Money, from_yuan_str, to_epay_string}
use epay_sdk_rust.Notify.Verify.{NotifyData, SuccessfulNotify, try_into_success}
use epay_sdk_rust.Payment.{FormPaymentRequest, new_payment}
use epay_sdk_rust.Payment.Request.{new_form, set_form_pay_type, set_device, set_client_ip_addr}
use epay_sdk_rust.Payment.Response.{PaymentResponse}
use epay_sdk_rust.Order.{
  OrderQueryRequest, OrderDetail, by_out_trade_no, by_trade_no, is_paid_order,
  generate_out_trade_no,
}
use epay_sdk_rust.Protocol.{Packages}
use epay_sdk_rust.Transport.{Transport}
use epay_sdk_rust.Axum.{payer_ip}
use epay_sdk_rust.Client.Call.{Client}
use epay_sdk_rust.Client.Facade.{Decoder, create_payment, query_order, client_form, client_form_url}
use epay_sdk_rust.Server.{
  Reply, answered, refused, bad_request, internal, Shop, PayQuery, remember, set_trade_no,
}

-- `CreateBody`
pub record CreateBody : Type 0 where
  pub pay_type : Option Text
  pub name : Option Text
  pub money : Text

-- `default_name`
abbrev pub default_name : Text
default_name = codes "商品"

abbrev pub or_else : Option Text → Text → Text
or_else none s = s
or_else (some t) s = t

-- `default` parts of the JSON answer to a created payment
pub record Created : Type 0 where
  pub out_trade_no : Text
  pub response : PaymentResponse

-- the JSON answer to an order query
pub record OrderView : Type 0 where
  pub out_trade_no : Text
  pub trade_no : Text
  pub paid : Bool
  pub money : Text

module _ (pkg : Packages) where
  -- `if !query.pay_type.is_empty() { request = request.pay_type(…) }`
  unfoldable pub with_channel : Text → FormPaymentRequest pkg.dec → FormPaymentRequest pkg.dec
  with_channel [] request = request
  with_channel (c ∷ s) request = set_form_pay_type pkg.dec (pay_type_from (c ∷ s)) request

  -- What `form_pay` and `url_pay` do behind the amount and the number: the order is remembered, then
  -- the form is built.
  unfoldable pub place_order :
      (FormPaymentRequest pkg.dec → Result Text)
      → PayQuery pkg
      → Money pkg.dec
      → Result Text × ℕ
      → Shop pkg
      → Reply Text × Shop pkg
  place_order build query money (err error, counter) shop =
      (refused 500 error, record shop { counter = counter })
  place_order build query money (ok no', counter) shop = (
    internal (build (with_channel query.pay_type (new_form pkg.dec no' query.name money))),
    record {
      orders = remember pkg no' query.name money query.pay_type shop.orders;
      counter = counter;
    },
  )

  unfoldable pub pay_page :
      (FormPaymentRequest pkg.dec → Result Text)
      → Text
      → Option ℕ
      → PayQuery pkg
      → Result (Money pkg.dec)
      → Shop pkg
      → Reply Text × Shop pkg
  pay_page build prefix' nanos query (err error) shop = (refused 400 error, shop)
  pay_page build prefix' nanos query (ok money) shop =
      place_order build query money (generate_out_trade_no prefix' nanos shop.counter) shop

  -- `form_pay`
  unfoldable pub form_pay : Client pkg → Option ℕ → PayQuery pkg → Shop pkg → Reply Text × Shop pkg
  form_pay client nanos query shop =
      pay_page (client_form pkg client) (codes "ORDER") nanos query
        (from_yuan_str pkg.dec query.money) shop

  -- `url_pay`: the address that it redirects to
  unfoldable pub url_pay : Client pkg → Option ℕ → PayQuery pkg → Shop pkg → Reply Text × Shop pkg
  url_pay client nanos query shop =
      pay_page (client_form_url pkg client) (codes "URL") nanos query
        (from_yuan_str pkg.dec query.money) shop

  -- `return_page`
  unfoldable pub success_page : Result (SuccessfulNotify pkg.dec) → Text
  success_page (err _) = codes "<h1>支付结果待确认</h1>"
  success_page (ok successful) =
      codes "<h1>支付完成</h1><p>订单号: "
      ++ successful.notify.out_trade_no
      ++ codes "</p><p>金额: "
      ++ to_epay_string pkg.dec successful.notify.money
      ++ codes " 元</p>"

  unfoldable pub return_page : Result (NotifyData pkg.dec) → Text
  return_page result = success_page (do data' ← result; try_into_success pkg.dec data')

module _ (pkg : Packages) (json : SerdeJson) (net : Transport pkg.urls) (http : HttpCrate) where
  open net use {World}

  -- the end of `qrcode_pay`: the trade number goes into the order
  unfoldable pub created :
      Text → Result PaymentResponse × World → Shop pkg → Reply Created × Shop pkg × World
  created no' (err error, w) shop = (refused 502 error, shop, w)
  created no' (ok response, w) shop = (
    answered (record { out_trade_no = no'; response = response }),
    record shop { orders = set_trade_no pkg no' response.trade_no shop.orders },
    w,
  )

  -- `qrcode_pay` behind the amount and the number
  unfoldable pub send_payment :
      Decoder pkg json net PaymentResponse
      → Client pkg
      → IpAddr
      → Text
      → Text
      → Money pkg.dec
      → Result Text × ℕ
      → Shop pkg
      → World
      → Reply Created × Shop pkg × World
  send_payment decode client ip name channel money (err error, counter) shop w =
      (refused 500 error, record shop { counter = counter }, w)
  send_payment decode client ip name channel money (ok no', counter) shop w =
      let request = set_client_ip_addr pkg.dec ip (
        set_device pkg.dec Device.pc
          (new_payment pkg.dec (pay_type_from channel) no' name money)) in
      created no' (create_payment pkg json net decode client request w)
        (record { orders = remember pkg no' name money channel shop.orders; counter = counter })

  unfoldable pub priced_payment :
      Decoder pkg json net PaymentResponse
      → Client pkg
      → IpAddr
      → Option ℕ
      → CreateBody
      → Result (Money pkg.dec)
      → Shop pkg
      → World
      → Reply Created × Shop pkg × World
  priced_payment decode client ip nanos body (err error) shop w = (refused 400 error, shop, w)
  priced_payment decode client ip nanos body (ok money) shop w =
      send_payment decode client ip (or_else body.name default_name)
        (or_else body.pay_type (codes "alipay")) money
        (generate_out_trade_no (codes "API") nanos shop.counter) shop w

  -- `qrcode_pay`
  unfoldable pub qrcode_pay :
      Decoder pkg json net PaymentResponse
      → Client pkg
      → http.HeaderMap
      → IpAddr
      → Bool
      → Option ℕ
      → CreateBody
      → Shop pkg
      → World
      → Reply Created × Shop pkg × World
  qrcode_pay decode client headers peer trust nanos body shop w =
      priced_payment decode client (payer_ip http headers peer trust) nanos body
        (from_yuan_str pkg.dec body.money) shop w

  unfoldable pub show_order : Result OrderDetail × World → Reply OrderView × World
  show_order (err error, w) = (refused 502 error, w)
  show_order (ok order, w) = (
    answered (record {
      out_trade_no = order.out_trade_no;
      trade_no = order.trade_no;
      paid = is_paid_order order;
      money = order.money;
    }),
    w,
  )

  -- the request of `query_order`: the merchant's number goes first
  unfoldable pub requested : Option Text → Option Text → Option OrderQueryRequest
  requested (some number) _ = some (by_out_trade_no number)
  requested none (some number) = some (by_trade_no number)
  requested none none = none

  unfoldable pub query_for :
      Decoder pkg json net OrderDetail
      → Client pkg
      → Option OrderQueryRequest
      → World
      → Reply OrderView × World
  query_for decode client none w = (bad_request (codes "order identifier is required"), w)
  query_for decode client (some request) w =
      show_order (query_order pkg json net decode client request w)

  -- `query_order`, on the two members of the query that it reads
  unfoldable pub query_page :
      Decoder pkg json net OrderDetail
      → Client pkg
      → Option Text
      → Option Text
      → World
      → Reply OrderView × World
  query_page decode client out_trade_no trade_no w =
      query_for decode client (requested out_trade_no trade_no) w
