-- ===== src/Limits.antt =====
-- limits.rs: the size limits of outbound requests, in bytes of UTF-8.
use epay_sdk_rust.Common.{ℕ}

abbrev pub max_out_trade_no_bytes : ℕ
max_out_trade_no_bytes = 64

abbrev pub max_name_bytes : ℕ
max_name_bytes = 255

abbrev pub max_param_bytes : ℕ
max_param_bytes = 255

abbrev pub max_sitename_bytes : ℕ
max_sitename_bytes = 64

abbrev pub max_callback_url_bytes : ℕ
max_callback_url_bytes = 1024

abbrev pub max_identifier_bytes : ℕ
max_identifier_bytes = 32

abbrev pub max_request_bytes : ℕ
max_request_bytes = 4096
