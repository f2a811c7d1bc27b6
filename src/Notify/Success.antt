-- ===== src/Notify/Success.antt =====
-- notify.rs: what `try_into_success` returns for each status, and what the tests of a shop mean.
use epay_sdk_rust.Common.{◌≡◌, ◌↔◌, true, false}
use epay_sdk_rust.Text.{codes}
use epay_sdk_rust.Text.Laws.{text_eq_iff}
use epay_sdk_rust.Types.{is_success}
use epay_sdk_rust.Crates.Decimals.{Decimals}
use epay_sdk_rust.Error.{ok, err, notify_error}
use epay_sdk_rust.Money.{Money, money_eq}
use epay_sdk_rust.Notify.Verify.{NotifyData, money_matches, try_into_success}

module _ (dec : Decimals) (n : NotifyData dec) where
  pub try_into_success-eq-ok :
      is_success n.trade_status ≡ true → try_into_success dec n ≡ ok (record { notify = n })
  unfolding try_into_success
  try_into_success-eq-ok h = rw (h)

  pub try_into_success-eq-err :
      is_success n.trade_status ≡ false
      → try_into_success dec n ≡ err (notify_error (codes "trade_status is not TRADE_SUCCESS"))
  unfolding try_into_success
  try_into_success-eq-err h = rw (h)

  pub is_success_iff :
      (is_success n.trade_status ≡ true) ↔ (n.trade_status.value ≡ codes "TRADE_SUCCESS")
  unfolding is_success
  is_success_iff = text_eq_iff n.trade_status.value (codes "TRADE_SUCCESS")

  pub money_matches_iff :
      (money : Money dec)
      → (money_matches dec n money ≡ true) ↔ (dec.scaled n.money.value ≡ dec.scaled money.value)
  unfolding money_matches money_eq
  money_matches_iff money = dec.equal_iff n.money.value money.value
