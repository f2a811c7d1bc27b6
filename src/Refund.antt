-- ===== src/Refund.antt =====
-- refund.rs: refund requests and their answer, less its `extra` members.
use epay_sdk_rust.Common.{Option, none, some}
use epay_sdk_rust.Text.{Text}
use epay_sdk_rust.Crates.Decimals.{Decimals}
use epay_sdk_rust.Error.{Result}
use epay_sdk_rust.Validation.{Identifier, exactly_one_identifier}
use epay_sdk_rust.Money.{Money}

module _ (dec : Decimals) where
  pub record RefundRequest : Type 0 where
    pub trade_no : Option Text
    pub out_trade_no : Option Text
    pub money : Money dec

  -- `RefundRequest::out_trade_no`, `RefundRequest::trade_no`
  unfoldable pub refund_by_out_trade_no : Text → Money dec → RefundRequest
  refund_by_out_trade_no number money = record {
    trade_no = none;
    out_trade_no = some number;
    money = money;
  }

  unfoldable pub refund_by_trade_no : Text → Money dec → RefundRequest
  refund_by_trade_no number money = record {
    trade_no = some number;
    out_trade_no = none;
    money = money;
  }

  -- `RefundRequest::identifier`
  unfoldable pub refund_identifier : RefundRequest → Result Identifier
  refund_identifier request = exactly_one_identifier request.trade_no request.out_trade_no

pub record RefundResponse : Type 0 where
  pub msg : Text
