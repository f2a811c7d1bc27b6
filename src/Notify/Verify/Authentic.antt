-- ===== src/Notify/Verify/Authentic.antt =====
-- What an accepted notification guarantees, and what is accepted.
pub mod Parts
use epay_sdk_rust.Common.{ℕ, ◌≡◌, refl, subst, ◌≢◌, ◌↔◌, true, false, arith}
use epay_sdk_rust.Text.{Text, codes, to_ascii_lowercase, eq_ignore_ascii_case}
use epay_sdk_rust.Text.Decimal.{parse_unsigned}
use epay_sdk_rust.Types.{pay_type_from}
use epay_sdk_rust.Crates.Digest.{Digest}
use epay_sdk_rust.Crates.Decimals.{Decimals}
use epay_sdk_rust.Error.{
  verify_failed, Result, ok, err, ok_or, map_err, notify_error, >>=-eq-ok, ok_or-eq-ok, guard-eq-ok,
  branch-eq-ok, map_err-eq-ok, ok-injective,
}
use epay_sdk_rust.Params.{Params, get}
use epay_sdk_rust.Signer.{Signer, sign, verify, sign_type_md5}
use epay_sdk_rust.Signer.Verify.{verify_iff}
use epay_sdk_rust.Money.{from_yuan_str}
use epay_sdk_rust.Validation.{
  validate_trade_no, validate_out_trade_no, validate_pay_type, validate_name, non_empty,
}
use epay_sdk_rust.Notify.Verify.{
  u64_limit, missing_field, required, verify_sign, verify_signature, verify_pid, checked,
  check_status, or_empty, NotifyData, verify_notify,
}
use epay_sdk_rust.Notify.Verify.Authentic.Parts.{
  Field, required_sound, required_complete, checked_sound, checked_complete, IsSigned,
  verify_signature_sound, verify_signature_complete, HasPid, verify_pid_sound, verify_pid_complete,
}

module _ (dec : Decimals) (d : Digest) (signer : Signer) (expected_pid : ℕ) (params : Params) where
  -- The notification is signed with the merchant key, is meant for the configured merchant, and
  -- holds the fields of `n`, each of them well formed.
  pub record IsAuthentic (n : NotifyData dec) : Type 0 where
    pub signed : IsSigned d signer params
    pub pid : HasPid expected_pid params n.pid
    pub trade_no : Field params "trade_no" n.trade_no × (validate_trade_no n.trade_no ≡ ok tt)
    pub out_trade_no :
        Field params "out_trade_no" n.out_trade_no × (validate_out_trade_no n.out_trade_no ≡ ok tt)
    pub channel : Text
    pub pay_type : Field params "type" channel × (validate_pay_type (pay_type_from channel) ≡ ok tt)
    pub pay_type_read : n.pay_type ≡ pay_type_from channel
    pub name : Field params "name" n.name × (validate_name n.name ≡ ok tt)
    pub amount : Text
    pub money : Field params "money" amount × (from_yuan_str dec amount ≡ ok n.money)
    pub trade_status :
        Field params "trade_status" n.trade_status.value
        × (check_status n.trade_status.value ≡ ok tt)
    pub param : n.param ≡ or_empty (get params (codes "param"))

  verify_notify_sound :
      (n : NotifyData dec) → verify_notify dec d signer expected_pid params ≡ ok n → IsAuthentic n
  unfolding verify_notify
  verify_notify_sound n h =
      let (u, signed, h1) = >>=-eq-ok (verify_signature d signer params) _ h in
      let (pid, pid_ok, h2) = >>=-eq-ok (verify_pid expected_pid params) _ h1 in
      let (t, t_ok, h3) = >>=-eq-ok (checked params _ validate_trade_no _) _ h2 in
      let (o, o_ok, h4) = >>=-eq-ok (checked params _ validate_out_trade_no _) _ h3 in
      let (c, c_ok, h5) =
        >>=-eq-ok (checked params _ (λ s. validate_pay_type (pay_type_from s)) _) _ h4 in
      let (name, name_ok, h6) = >>=-eq-ok (checked params _ validate_name _) _ h5 in
      let (amount, amount_ok, h7) = >>=-eq-ok (required params (codes "money")) _ h6 in
      let (money, money_ok, h8) = >>=-eq-ok (map_err (from_yuan_str dec amount) _) _ h7 in
      let (s, s_ok, h9) = >>=-eq-ok (checked params _ check_status _) _ h8 in
      subst IsAuthentic (ok-injective h9) (record {
        signed = verify_signature_sound d signer params signed;
        pid = verify_pid_sound expected_pid params pid pid_ok;
        trade_no = checked_sound params _ validate_trade_no _ t t_ok;
        out_trade_no = checked_sound params _ validate_out_trade_no _ o o_ok;
        channel = c;
        pay_type = checked_sound params _ (λ s. validate_pay_type (pay_type_from s)) _ c c_ok;
        pay_type_read = refl;
        name = checked_sound params _ validate_name _ name name_ok;
        amount = amount;
        money = (
          required_sound params (codes "money") amount amount_ok,
          map_err-eq-ok (from_yuan_str dec amount) _ money_ok,
        );
        trade_status = checked_sound params _ check_status _ s s_ok;
        param = refl;
      })

  verify_notify_complete :
      (n : NotifyData dec) → IsAuthentic n → verify_notify dec d signer expected_pid params ≡ ok n
  unfolding verify_notify
  verify_notify_complete n a = rw (
    verify_signature_complete d signer params a.signed,
    verify_pid_complete expected_pid params n.pid a.pid,
    checked_complete params (codes "trade_no") validate_trade_no (codes "trade_no is invalid")
        n.trade_no a.trade_no.0.0 a.trade_no.0.1 a.trade_no.1,
    checked_complete params (codes "out_trade_no") validate_out_trade_no
        (codes "out_trade_no is invalid") n.out_trade_no a.out_trade_no.0.0 a.out_trade_no.0.1
        a.out_trade_no.1,
    checked_complete params (codes "type") (λ s. validate_pay_type (pay_type_from s))
        (codes "type is blank") a.channel a.pay_type.0.0 a.pay_type.0.1 a.pay_type.1,
    checked_complete params (codes "name") validate_name (codes "name is blank") n.name a.name.0.0
        a.name.0.1 a.name.1,
    required_complete params (codes "money") a.amount a.money.0.0 a.money.0.1,
    a.money.1,
    checked_complete params (codes "trade_status") check_status (codes "trade_status is blank")
        n.trade_status.value a.trade_status.0.0 a.trade_status.0.1 a.trade_status.1,
    ← a.pay_type_read,
    ← a.param,
  )

  -- A notification is accepted with the data `n` exactly when its `sign` is the MD5 signature of
  -- its other fields under the merchant key, its `pid` is the configured one and not 0, every
  -- required field is there, not empty and well formed, and `n` holds those fields.
  pub verify_notify_iff :
      (n : NotifyData dec) → (verify_notify dec d signer expected_pid params ≡ ok n) ↔ IsAuthentic n
  verify_notify_iff n = (verify_notify_sound n, verify_notify_complete n)

  -- If `sign_type` is there and is MD5 in any case of the letters, and `sign` is there and is not the
  -- computed signature, the answer is the error of the verification, whatever the merchant id, the
  -- order numbers, the channel, the name, the amount and the status are, and whether they are there.
  pub verify_notify_tampered :
      (sign_type received : Text)
      → Field params "sign_type" sign_type
      → eq_ignore_ascii_case sign_type sign_type_md5 ≡ true
      → Field params "sign" received
      → to_ascii_lowercase received ≢ sign d signer params
      → verify_notify dec d signer expected_pid params ≡ err verify_failed
  unfolding verify_notify verify_signature verify_sign
  verify_notify_tampered t r ht md5 hr wrong =
      let refused : verify d signer params r ≡ false =
        ground (arith, verify_iff d signer params r, wrong) in
      rw (
        required_complete params (codes "sign_type") t ht.0 ht.1,
        md5,
        required_complete params (codes "sign") r hr.0 hr.1,
        refused,
      )
