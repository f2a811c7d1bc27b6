-- ===== src/Merchant.antt =====
-- merchant.rs: the merchant's profile and the settlement records. `extra` members and the `Debug`
-- output are left out.
pub mod Checked
use epay_sdk_rust.Common.{ℕ, Bool, not, ◌&&◌, List, [], ◌∷◌, ◌==◌, if◌then◌else◌}
use epay_sdk_rust.Text.{Text, codes, trim}
use epay_sdk_rust.Common.Int.{ℤ, pos, int_eq, is_negative}
use epay_sdk_rust.Endpoint.{Endpoint}
use epay_sdk_rust.Crates.Decimals.{Decimals}
use epay_sdk_rust.Error.{Error, Result, ok, err, ◌>>=◌, ◌>>◌, ok_or, invalid_response_message}

pub record MerchantInfo : Type 0 where
  pub pid : ℕ
  pub active : ℤ
  pub money : Text
  pub settle_type : ℤ
  pub account : Text
  pub username : Text

-- `MerchantInfo::is_active`
unfoldable pub is_active : MerchantInfo → Bool
is_active info = int_eq info.active (pos 1)

pub record Settlement : Type 0 where
  pub id : ℤ
  pub uid : ℕ
  pub money : Text
  pub account : Text
  pub status : ℤ
  pub add_time : Text

pub record SettlementListResponse : Type 0 where
  pub count : ℤ
  pub settlements : List Settlement

module _ (dec : Decimals) where
  open dec use {Decimal}

  -- `MerchantInfo::balance`
  unfoldable pub balance : MerchantInfo → Result Decimal
  balance info =
      ok_or (dec.from_str (trim info.money))
        (invalid_response_message Endpoint.query_merchant (codes "returned balance is invalid"))

  -- `MerchantInfo::validate_success`
  unfoldable pub validate_merchant : ℕ → MerchantInfo → Result (Unit {0})
  validate_merchant expected_pid info =
      if not (info.pid == expected_pid)
      then err (
          invalid_response_message Endpoint.query_merchant
            (codes "returned pid does not match the configured pid"))
      else do
        value ← balance info
        (if dec.lt_zero value
            then err (
                invalid_response_message Endpoint.query_merchant
                  (codes "returned balance is negative"))
            else ok tt)

  -- one round of the loop in `SettlementListResponse::validate_success`
  unfoldable pub validate_settlement : ℕ → Settlement → Result (Unit {0})
  validate_settlement expected_pid s =
      let message : Text → Error = λ m. invalid_response_message Endpoint.query_settlements m in
      if not (s.uid == 0) && not (s.uid == expected_pid)
      then err (message (codes "a settlement uid does not match the configured pid"))
      else do
        money ←
            ok_or (dec.from_str (trim s.money)) (message (codes "a settlement has invalid money"))
        (if dec.lt_zero money
            then err (message (codes "a settlement has negative money"))
            else ok tt)

  unfoldable pub validate_each : ℕ → List Settlement → Result (Unit {0})
  validate_each expected_pid [] = ok tt
  validate_each expected_pid (s ∷ settlements) = do
    validate_settlement expected_pid s
    validate_each expected_pid settlements

  -- `SettlementListResponse::validate_success`
  unfoldable pub validate_settlements : ℕ → SettlementListResponse → Result (Unit {0})
  validate_settlements expected_pid list =
      if is_negative list.count
      then err
          (invalid_response_message Endpoint.query_settlements (codes "returned count is negative"))
      else validate_each expected_pid list.settlements
