-- ===== src/Notify/Verify.antt =====
-- notify.rs: `verify_notify`, and what an accepted notification guarantees.
pub mod Authentic
use epay_sdk_rust.Common.{
  ℕ, ◌^◌, Bool, not, ◌||◌, Option, none, some, [], ◌++◌, ◌==◌, if◌then◌else◌, is_nil,
}
use epay_sdk_rust.Text.{Text, codes, trim, eq_ignore_ascii_case}
use epay_sdk_rust.Text.Decimal.{parse_unsigned}
use epay_sdk_rust.Types.{PayType, pay_type_from, TradeStatus, is_success, trade_success}
use epay_sdk_rust.Crates.Digest.{Digest}
use epay_sdk_rust.Crates.Decimals.{Decimals}
use epay_sdk_rust.Error.{
  Error, verify_failed, Result, ok, err, ◌>>=◌, ◌>>◌, ok_or, map_err, notify_error,
}
use epay_sdk_rust.Params.{Params, get}
use epay_sdk_rust.Signer.{Signer, verify, sign_type_md5}
use epay_sdk_rust.Money.{Money, from_yuan_str, money_eq}
use epay_sdk_rust.Validation.{
  validate_trade_no, validate_out_trade_no, validate_pay_type, validate_name, non_empty,
}

abbrev pub u64_limit : ℕ
u64_limit = 2 ^ 64

-- `format!("missing required field {key:?}")`; the keys are plain words
unfoldable pub missing_field : Text → Error
missing_field key = notify_error (codes "missing required field \"" ++ key ++ codes "\"")

-- `required`
unfoldable pub required : Params → Text → Result Text
required params key = ok_or (non_empty (get params key)) (missing_field key)

unfoldable pub verify_sign : Digest → Signer → Params → Result (Unit {0})
verify_sign d signer params = do
  sign ← required params (codes "sign")
  if verify d signer params sign then ok tt else err verify_failed

-- the two tests of `verify_notify` that concern the signature
unfoldable pub verify_signature : Digest → Signer → Params → Result (Unit {0})
verify_signature d signer params = do
  sign_type ← required params (codes "sign_type")
  if eq_ignore_ascii_case sign_type sign_type_md5
      then verify_sign d signer params
      else err (notify_error (codes "unsupported sign_type (only MD5)"))

-- the test of the merchant id
unfoldable pub verify_pid : ℕ → Params → Result ℕ
verify_pid expected_pid params = do
  raw ← required params (codes "pid")
  pid ← ok_or (parse_unsigned u64_limit raw) (notify_error (codes "pid is not a positive integer"))
  if pid == 0 || not (pid == expected_pid)
      then err (notify_error (codes "pid does not match the configured pid"))
      else ok pid

-- a required field with its check
unfoldable pub checked : Params → Text → (Text → Result (Unit {0})) → Text → Result Text
checked params key check message = do
  value ← required params key
  map_err (check value) (notify_error message)
  ok value

-- `if trade_status.trim().is_empty()`
unfoldable pub check_status : Text → Result (Unit {0})
check_status value =
    if is_nil (trim value) then err (notify_error (codes "trade_status is blank")) else ok tt

abbrev pub or_empty : Option Text → Text
or_empty none = []
or_empty (some s) = s

module _ (dec : Decimals) where
  pub record NotifyData : Type 0 where
    pub pid : ℕ
    pub trade_no : Text
    pub out_trade_no : Text
    pub pay_type : PayType
    pub name : Text
    pub money : Money dec
    pub trade_status : TradeStatus
    pub param : Text

  -- `verify_notify`
  unfoldable pub verify_notify : Digest → Signer → ℕ → Params → Result NotifyData
  verify_notify d signer expected_pid params = do
    verify_signature d signer params
    pid ← verify_pid expected_pid params
    trade_no ← checked params (codes "trade_no") validate_trade_no (codes "trade_no is invalid")
    out_trade_no ←
        checked params (codes "out_trade_no") validate_out_trade_no
          (codes "out_trade_no is invalid")
    channel ←
        checked params (codes "type") (λ s. validate_pay_type (pay_type_from s))
          (codes "type is blank")
    name ← checked params (codes "name") validate_name (codes "name is blank")
    amount ← required params (codes "money")
    money ← map_err (from_yuan_str dec amount) (notify_error (codes "money is invalid"))
    trade_status ←
        checked params (codes "trade_status") check_status (codes "trade_status is blank")
    ok (record {
      pid = pid;
      trade_no = trade_no;
      out_trade_no = out_trade_no;
      pay_type = pay_type_from channel;
      name = name;
      money = money;
      trade_status = record { value = trade_status };
      param = or_empty (get params (codes "param"));
    })

  -- `NotifyData::money_matches`
  unfoldable pub money_matches : NotifyData → Money dec → Bool
  money_matches data' expected = money_eq dec data'.money expected

  -- `SuccessfulNotify`
  pub record SuccessfulNotify : Type 0 where
    pub notify : NotifyData

  -- `NotifyData::try_into_success`
  unfoldable pub try_into_success : NotifyData → Result SuccessfulNotify
  try_into_success data' =
      if is_success data'.trade_status
      then ok (record { notify = data' })
      else err (notify_error (codes "trade_status is not TRADE_SUCCESS"))
