-- ===== src/Error/Codes.antt =====
-- error.rs: the well-known configuration and parameter errors.
use epay_sdk_rust.Text.{codes}
use epay_sdk_rust.Error.{Error}

abbrev pub invalid_pid : Error
invalid_pid = Error.config (codes "invalid PID: must be greater than 0")

abbrev pub invalid_key : Error
invalid_key = Error.config (codes "invalid Key: must not be empty")

abbrev pub invalid_api_url : Error
invalid_api_url = Error.config (codes "invalid API base URL")

abbrev pub insecure_api_url : Error
insecure_api_url =
    Error.config (
      codes "API base URL must use HTTPS; call allow_insecure_http(true) for a legacy HTTP gateway")

abbrev pub invalid_notify_url : Error
invalid_notify_url = Error.param (codes "notify_url must be an absolute HTTP(S) URL")

abbrev pub invalid_return_url : Error
invalid_return_url = Error.param (codes "return_url must be an absolute HTTP(S) URL")

abbrev pub insecure_notify_url : Error
insecure_notify_url =
    Error.param
      (codes "notify_url must use HTTPS; call allow_insecure_callback_http(true) for local testing")

abbrev pub insecure_return_url : Error
insecure_return_url =
    Error.param
      (codes "return_url must use HTTPS; call allow_insecure_callback_http(true) for local testing")

abbrev pub missing_out_trade_no : Error
missing_out_trade_no = Error.param (codes "out_trade_no is required")

abbrev pub invalid_out_trade_no : Error
invalid_out_trade_no =
    Error.param (codes "out_trade_no must be 1..=64 ASCII characters from [A-Za-z0-9._|-]")

abbrev pub missing_notify_url : Error
missing_notify_url = Error.param (codes "notify_url is required")

abbrev pub missing_name : Error
missing_name = Error.param (codes "name is required")

abbrev pub name_too_long : Error
name_too_long = Error.param (codes "name exceeds 255 bytes")

abbrev pub name_has_control_chars : Error
name_has_control_chars = Error.param (codes "name must not contain control characters")

abbrev pub sitename_has_control_chars : Error
sitename_has_control_chars = Error.param (codes "sitename must not contain control characters")

abbrev pub param_too_long : Error
param_too_long = Error.param (codes "param exceeds 255 bytes")

abbrev pub sitename_too_long : Error
sitename_too_long = Error.param (codes "sitename exceeds 64 bytes")

abbrev pub callback_url_too_long : Error
callback_url_too_long = Error.param (codes "notify_url / return_url exceeds 1024 bytes")

abbrev pub request_too_large : Error
request_too_large =
    Error.param (codes "encoded request exceeds 4096 bytes; shorten name, param or callback URLs")

abbrev pub invalid_pay_type : Error
invalid_pay_type = Error.param (codes "payment type must be 1..=32 characters from [A-Za-z0-9_-]")

abbrev pub invalid_device : Error
invalid_device = Error.param (codes "device must be 1..=32 characters from [A-Za-z0-9_-]")

abbrev pub invalid_money : Error
invalid_money = Error.param (codes "money must be greater than 0")

abbrev pub invalid_money_precision : Error
invalid_money_precision =
    Error.param (codes "money must have at most two fractional decimal places")

abbrev pub money_out_of_range : Error
money_out_of_range = Error.param (codes "money exceeds the i64 fen range")

abbrev pub missing_trade_no : Error
missing_trade_no = Error.param (codes "exactly one of trade_no or out_trade_no is required")

abbrev pub invalid_trade_no : Error
invalid_trade_no = Error.param (codes "trade_no must be a non-blank ASCII identifier")

abbrev pub missing_client_ip : Error
missing_client_ip = Error.param (codes "clientip is required by mapi.php")

abbrev pub invalid_client_ip : Error
invalid_client_ip = Error.param (codes "clientip must be a valid IPv4/IPv6 address")
