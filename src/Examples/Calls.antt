-- ===== src/Examples/Calls.antt =====
-- Calls of the client on the scripted transport.
use epay_sdk_rust.Common.{◌≡◌, false, none, some, List, [], ◌∷◌, arith}
use epay_sdk_rust.Text.{Text, Bytes, codes}
use epay_sdk_rust.Common.Int.{ℤ, pos}
use epay_sdk_rust.Endpoint.{Endpoint, is_success_code}
use epay_sdk_rust.Crates.UrlCrate.Toy.{toy_url}
use epay_sdk_rust.Crates.SerdeJson.{Decoded, toy_json}
use epay_sdk_rust.Error.{Error, TransportErrorKind, Result, ok, err, api_error}
use epay_sdk_rust.Config.Retry.{RetryPolicy}
use epay_sdk_rust.Config.Http.{default_http}
use epay_sdk_rust.Payment.Response.{PaymentResponse}
use epay_sdk_rust.Order.{OrderDetail, OrderListResponse}
use epay_sdk_rust.Refund.{RefundResponse}
use epay_sdk_rust.Transport.{TransportOptions}
use epay_sdk_rust.Transport.Mock.{MockInner, mock_transport}
use epay_sdk_rust.Client.{create_payment}
use epay_sdk_rust.Client.Call.{CallOptions, Client, get_loop}
use epay_sdk_rust.Client.Json.{parse_json, message_or_default, view_of}
use epay_sdk_rust.Client.Envelope.{HasCode, IsAccepted, parse_json_lem}
use epay_sdk_rust.Client.Once.{IsSentOnce, create_payment-IsSentOnce}
use epay_sdk_rust.Client.Pages.{query_all_orders, query_all_orders_ends}
use epay_sdk_rust.Client.Retried.{IsRun, get_loop-IsRun, get_loop-enough}
use epay_sdk_rust.Examples.{merchant, toy_packages}
use epay_sdk_rust.Examples.Callbacks.{config, payment}

abbrev no_pairs : toy_url.Url → List (Text × Text)
no_pairs url = []

abbrev address : toy_url.Url
unfolding toy_url
address = record {
  scheme_part = codes "https";
  host_part = codes "pay.example.com";
  path_part = codes "/";
  query_part = none;
}

abbrev policy : RetryPolicy
policy = record { max_retries = 2; initial_backoff = 200; max_backoff = 500 }

abbrev options : TransportOptions
options = record { max_response_bytes = 100; timeout = none }

-- a time-out, and then an answer
abbrev mock : MockInner
mock = record {
  responses = err (Error.transport TransportErrorKind.timeout []) ∷ ok (codes "code=1") ∷ [];
  requests = [];
  sleeps = [];
}

abbrev done : Bytes → Result Bytes
done bytes = ok bytes

get_loop-IsRun_example :
    IsRun toy_packages toy_json no_pairs done policy address options 0 mock
      (get_loop toy_packages toy_json
        (mock_transport toy_url no_pairs)
        done
        policy
        address
        options
        2
        0
        mock).1
get_loop-IsRun_example =
    get_loop-IsRun toy_packages toy_json no_pairs done policy address options mock

get_loop-enough_example :
    get_loop toy_packages toy_json
      (mock_transport toy_url no_pairs)
      done
      policy
      address
      options
      2
      0
      mock
    ≡ get_loop toy_packages toy_json
        (mock_transport toy_url no_pairs)
        done
        policy
        address
        options
        9
        0
        mock
get_loop-enough_example =
    get_loop-enough toy_packages toy_json (mock_transport toy_url no_pairs) done policy address
      options 2 9 0 mock (omega arith) (omega arith)

abbrev client : Client toy_packages
client = record { protocol = record { config = config; signer = merchant }; http = default_http }

abbrev call_options : CallOptions
call_options = record { timeout = none; retry = some policy }

abbrev decode_payment : toy_json.Value → Decoded PaymentResponse
decode_payment v =
    Decoded.value (record {
      trade_no = codes "T1";
      pay_url = codes "https://pay";
      qr_code = [];
      url_scheme = [];
    })

create_payment-IsSentOnce_example :
    IsSentOnce toy_packages toy_json no_pairs mock
      (create_payment toy_packages toy_json
        (mock_transport toy_url no_pairs)
        decode_payment
        client
        payment
        call_options
        mock).1
create_payment-IsSentOnce_example =
    create_payment-IsSentOnce toy_packages toy_json no_pairs decode_payment client payment
      call_options mock

abbrev decode_refund : toy_json.Value → Decoded RefundResponse
decode_refund v = Decoded.value (record { msg = [] })

abbrev refused : Bytes
refused = codes "code=-3&msg=no"

parse_json_lem_example :
    ((r : RefundResponse)
      → parse_json toy_json decode_refund Endpoint.refund refused ≡ ok r
      → IsAccepted toy_json decode_refund Endpoint.refund refused r)
    × ((value : toy_json.Value) (code : ℤ)
        → HasCode toy_json Endpoint.refund refused value code
        → is_success_code Endpoint.refund code ≡ false
        → parse_json toy_json decode_refund Endpoint.refund refused
          ≡ err (
              api_error Endpoint.refund code
                (message_or_default (view_of toy_json (toy_json.member value (codes "msg"))))))
parse_json_lem_example = parse_json_lem toy_json decode_refund Endpoint.refund refused

abbrev decode_orders : toy_json.Value → Decoded OrderListResponse
decode_orders v = Decoded.value (record { count = pos 0; orders = [] })

query_all_orders_ends_example :
    (r : Result (List OrderDetail) × MockInner) × (query_all_orders toy_packages toy_json
        (mock_transport toy_url no_pairs)
        decode_orders
        3
        client
        10
        3
        call_options
        mock
      ≡ some r)
query_all_orders_ends_example =
    query_all_orders_ends toy_packages toy_json (mock_transport toy_url no_pairs) decode_orders
      client 10 3 call_options mock (omega arith)
