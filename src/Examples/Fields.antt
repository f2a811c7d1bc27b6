-- ===== src/Examples/Fields.antt =====
-- Requests' fields, rows of orders, masking, and the signature.
use epay_sdk_rust.Common.{
  ◌+◌, ◌-◌, ◌^◌, ◌≤◌, min, max, ◌≡◌, ◌↔◌, true, some, [], arith, length, all, All,
}
use epay_sdk_rust.Text.{codes, as_bytes}
use epay_sdk_rust.Common.Int.{pos}
use epay_sdk_rust.Error.{Error, ok, kind, code, is_timeout, is_retryable, sanitized}
use epay_sdk_rust.Error.Kept.{IsTransientError, is_retryable_lem}
use epay_sdk_rust.Validation.{is_out_trade_no_byte, validate_out_trade_no, validate_trade_no}
use epay_sdk_rust.Validation.Accepts.{validate_out_trade_no_iff}
use epay_sdk_rust.Notify.{validate_percent_encoding}
use epay_sdk_rust.Notify.Escapes.{IsWellEscaped, validate_percent_encoding_iff}
use epay_sdk_rust.Payment.Response.{
  PaymentResponse, PaymentDestination, destination, validate_success, IsFirst, validate_success_iff,
}
use epay_sdk_rust.Payment.Form.{html_escape}
use epay_sdk_rust.Payment.Form.Escape.{IsInert, read_text, html_escape_lem}
use epay_sdk_rust.Order.{OrderListResponse, next_page}
use epay_sdk_rust.Order.Paging.{next_page_iff}

validate_out_trade_no_iff_example :
    (validate_out_trade_no (codes "A-1") ≡ ok tt)
    ↔ ((1 ≤ 3) × (3 ≤ 64) × (all is_out_trade_no_byte (codes "A-1") ≡ true))
validate_out_trade_no_iff_example = validate_out_trade_no_iff (codes "A-1")

validate_percent_encoding_iff_example :
    (validate_percent_encoding (codes "a%2") ≡ ok tt) ↔ IsWellEscaped (as_bytes (codes "a%2"))
validate_percent_encoding_iff_example = validate_percent_encoding_iff (codes "a%2")

abbrev response : PaymentResponse
response = record {
  trade_no = codes "T1";
  pay_url = codes " ";
  qr_code = codes " q ";
  url_scheme = [];
}

validate_success_iff_example : (validate_success response ≡ ok tt) ↔ (
    (validate_trade_no (codes "T1") ≡ ok tt)
    × ((d : PaymentDestination) × (destination response ≡ some d) × IsFirst response d))
validate_success_iff_example = validate_success_iff response

html_escape_lem_example :
    All IsInert (html_escape (codes "<\"&"))
    × (read_text (length (html_escape (codes "<\"&"))) (html_escape (codes "<\"&")) ≡ codes "<\"&")
html_escape_lem_example = html_escape_lem (codes "<\"&")

abbrev one_order : OrderListResponse
one_order = record { count = pos 0; orders = [] }

next_page_iff_example :
    (next_page one_order 7 0 ≡ some 8)
    ↔ ((max 1 (min 0 50) ≤ 0) × (8 ≡ min (max 7 1 + 1) (2 ^ 32 - 1)))
next_page_iff_example = next_page_iff one_order 7 0 8 (omega arith)

abbrev bad_gateway : Error
bad_gateway = Error.http 502 (codes "key=abc")

is_retryable_lem_example :
    ((is_retryable bad_gateway ≡ true) ↔ IsTransientError bad_gateway)
    × (is_retryable (sanitized bad_gateway) ≡ is_retryable bad_gateway)
    × (kind (sanitized bad_gateway) ≡ kind bad_gateway)
    × (code (sanitized bad_gateway) ≡ code bad_gateway)
    × (is_timeout (sanitized bad_gateway) ≡ is_timeout bad_gateway)
is_retryable_lem_example = is_retryable_lem bad_gateway
