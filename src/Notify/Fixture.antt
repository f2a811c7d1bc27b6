-- ===== src/Notify/Fixture.antt =====
-- test_util.rs: `NotifyFixture`, which makes the notifications that a gateway sends.
pub mod Accepted
pub mod Delivered
use epay_sdk_rust.Common.{ℕ, Option, none, some}
use epay_sdk_rust.Text.{Text, codes}
use epay_sdk_rust.Text.Decimal.{to_string}
use epay_sdk_rust.Types.{PayType, pay_type_as_str, TradeStatus, trade_success}
use epay_sdk_rust.Crates.Digest.{Digest}
use epay_sdk_rust.Crates.Decimals.{Decimals}
use epay_sdk_rust.Crates.Form.{FormUrlencoded}
use epay_sdk_rust.Params.{Params, empty, insert, insert_opt}
use epay_sdk_rust.Params.Redacted.{encode}
use epay_sdk_rust.Signer.{Signer, sign_with_params}
use epay_sdk_rust.Money.{Money, to_epay_string}

module _ (dec : Decimals) where
  -- `NotifyFixture`
  pub record NotifyFixture : Type 0 where
    pub pid : ℕ
    pub key : Text
    pub trade_no : Text
    pub out_trade_no : Text
    pub pay_type : PayType
    pub name : Text
    pub money : Money dec
    pub trade_status : TradeStatus
    pub param : Option Text

  -- `NotifyFixture::new`
  unfoldable pub new_fixture : ℕ → Text → Text → Money dec → NotifyFixture
  new_fixture pid key out_trade_no money = record {
    pid = pid;
    key = key;
    trade_no = codes "20260828000000000001";
    out_trade_no = out_trade_no;
    pay_type = PayType.alipay;
    name = codes "Test Product";
    money = money;
    trade_status = record { value = trade_success };
    param = none;
  }

  -- `NotifyFixture::trade_no`, `NotifyFixture::pay_type`, `NotifyFixture::name`
  unfoldable pub with_trade_no : Text → NotifyFixture → NotifyFixture
  with_trade_no trade_no fixture = record fixture { trade_no = trade_no }

  unfoldable pub with_pay_type : PayType → NotifyFixture → NotifyFixture
  with_pay_type channel fixture = record fixture { pay_type = channel }

  unfoldable pub with_name : Text → NotifyFixture → NotifyFixture
  with_name name fixture = record fixture { name = name }

  -- `NotifyFixture::trade_status`, `NotifyFixture::param`
  unfoldable pub with_trade_status : TradeStatus → NotifyFixture → NotifyFixture
  with_trade_status status fixture = record fixture { trade_status = status }

  unfoldable pub with_param : Text → NotifyFixture → NotifyFixture
  with_param param fixture = record fixture { param = some param }

  -- `NotifyFixture::unsigned_params`
  unfoldable pub unsigned_params : NotifyFixture → Params
  unsigned_params f =
      let p₀ = insert (codes "pid") (to_string f.pid) empty in
      let p₁ = insert (codes "trade_no") f.trade_no p₀ in
      let p₂ = insert (codes "out_trade_no") f.out_trade_no p₁ in
      let p₃ = insert (codes "type") (pay_type_as_str f.pay_type) p₂ in
      let p₄ = insert (codes "name") f.name p₃ in
      let p₅ = insert (codes "money") (to_epay_string dec f.money) p₄ in
      let p₆ = insert (codes "trade_status") f.trade_status.value p₅ in
      insert_opt (codes "param") f.param p₆

  -- `NotifyFixture::params`, for a key that is not empty
  unfoldable pub fixture_params : Digest → NotifyFixture → Params
  fixture_params d f = sign_with_params d (record { key = f.key }) (unsigned_params f)

  -- `NotifyFixture::query`
  unfoldable pub fixture_query : Digest → FormUrlencoded → NotifyFixture → Text
  fixture_query d enc f = encode enc (fixture_params d f)
