-- ===== src/Examples/Notified.antt =====
-- Signatures and notifications.
use epay_sdk_rust.Common.{
  ◌+◌, ◌*◌, ◌≤◌, ◌≡◌, refl, ◌↔◌, true, false, some, List, [], ◌∷◌, ◌++◌, length, All,
}
use epay_sdk_rust.Text.{
  Text, codes, len, text_eq, trim, to_ascii_lowercase, eq_ignore_ascii_case, split, split_once,
}
use epay_sdk_rust.Text.Laws.{text_eq_iff}
use epay_sdk_rust.Common.Int.{pos}
use epay_sdk_rust.Types.{PayType}
use epay_sdk_rust.Crates.Decimals.{cent}
use epay_sdk_rust.Crates.Decimals.Toy.{toy_decimals}
use epay_sdk_rust.Crates.Digest.{toy_digest}
use epay_sdk_rust.Crates.Percent.{toy_percent}
use epay_sdk_rust.Error.{ok, err, verify_failed}
use epay_sdk_rust.Params.{Params, from_iter, get, is_unsigned, sign_payload}
use epay_sdk_rust.Params.Valid.{from_iter-IsValid}
use epay_sdk_rust.Signer.{Signer, sign, verify, sign_with_params, sign_type_md5}
use epay_sdk_rust.Signer.Verify.{lower-sign, verify_iff, verify-sign_with_params}
use epay_sdk_rust.Signer.Payload.{sign_ext}
use epay_sdk_rust.Notify.{
  NotifySource, RawNotifyEntry, default_limits, encoded_len, parse_raw_with_limits,
}
use epay_sdk_rust.Notify.Canonical.{canonicalize}
use epay_sdk_rust.Notify.Merged.{IsMerged, canonicalize-merges}
use epay_sdk_rust.Notify.Limits.{IsEntry, parse_raw_bounds}
use epay_sdk_rust.Notify.Verify.{NotifyData, verify_notify}
use epay_sdk_rust.Notify.Verify.Authentic.{IsAuthentic, verify_notify_iff, verify_notify_tampered}
use epay_sdk_rust.Examples.{merchant}

abbrev fields : List (Text × Text)
fields =
    (codes "pid", codes "1001")
    ∷ (codes "trade_no", codes "T1")
    ∷ (codes "out_trade_no", codes "A-1")
    ∷ (codes "type", codes "alipay")
    ∷ (codes "name", codes "tea")
    ∷ (codes "money", codes "10.00")
    ∷ (codes "trade_status", codes "TRADE_SUCCESS")
    ∷ []

abbrev genuine : Params
genuine = sign_with_params toy_digest merchant (from_iter fields)

abbrev order : NotifyData toy_decimals
unfolding toy_decimals
order = record {
  pid = 1001;
  trade_no = codes "T1";
  out_trade_no = codes "A-1";
  pay_type = PayType.alipay;
  name = codes "tea";
  money = record { value = pos (1000 * cent) };
  trade_status = record { value = codes "TRADE_SUCCESS" };
  param = [];
}

verify_notify_iff_example :
    (verify_notify toy_decimals toy_digest merchant 1001 genuine ≡ ok order)
    ↔ IsAuthentic toy_decimals toy_digest merchant 1001 genuine order
verify_notify_iff_example = verify_notify_iff toy_decimals toy_digest merchant 1001 genuine order

accepted : verify_notify toy_decimals toy_digest merchant 1001 genuine ≡ ok order
unfolding epay_sdk_rust.Text.trim epay_sdk_rust.Text.eq_ignore_ascii_case
    epay_sdk_rust.Text.split_once epay_sdk_rust.Text.Decimal.parse_unsigned
    epay_sdk_rust.Params.remove epay_sdk_rust.Params.from_iter epay_sdk_rust.Params.sign_payload
    epay_sdk_rust.Signer.hex_lower epay_sdk_rust.Signer.sign epay_sdk_rust.Signer.verify
    epay_sdk_rust.Signer.sign_with_params epay_sdk_rust.Crates.Digest.toy_digest
    epay_sdk_rust.Crates.Decimals.Toy.toy_parts epay_sdk_rust.Crates.Decimals.Toy.toy_decimals
    epay_sdk_rust.Types.pay_type_as_str epay_sdk_rust.Types.pay_type_from
    epay_sdk_rust.Validation.is_out_trade_no_byte epay_sdk_rust.Validation.validate_out_trade_no
    epay_sdk_rust.Validation.validate_trade_no epay_sdk_rust.Validation.has_control_chars
    epay_sdk_rust.Validation.validate_name epay_sdk_rust.Validation.is_identifier_byte
    epay_sdk_rust.Validation.is_identifier epay_sdk_rust.Validation.validate_pay_type
    epay_sdk_rust.Validation.exactly_one_identifier epay_sdk_rust.Money.new
    epay_sdk_rust.Money.from_yuan_str epay_sdk_rust.Notify.Verify.required
    epay_sdk_rust.Notify.Verify.verify_sign epay_sdk_rust.Notify.Verify.verify_signature
    epay_sdk_rust.Notify.Verify.verify_pid epay_sdk_rust.Notify.Verify.checked
    epay_sdk_rust.Notify.Verify.check_status epay_sdk_rust.Notify.Verify.verify_notify
accepted = refl

abbrev zeros : Text
zeros = codes "00000000000000000000000000000000"

abbrev forged : Params
forged = from_iter (fields ++ (codes "sign", zeros) ∷ (codes "sign_type", codes "md5") ∷ [])

wrong : text_eq (to_ascii_lowercase zeros) (sign toy_digest merchant forged) ≡ false
unfolding toy_digest to_ascii_lowercase sign epay_sdk_rust.Signer.hex_lower sign_payload from_iter
wrong = refl

verify_notify_tampered_example :
    verify_notify toy_decimals toy_digest merchant 1001 forged ≡ err verify_failed
unfolding from_iter get eq_ignore_ascii_case
verify_notify_tampered_example =
    verify_notify_tampered toy_decimals toy_digest merchant 1001 forged (codes "md5") zeros
      (refl, refl) refl (refl, refl)
      (λ h.
        cc (wrong, (text_eq_iff (to_ascii_lowercase zeros) (sign toy_digest merchant forged)).1 h))

verify_iff_example :
    (verify toy_digest merchant genuine zeros ≡ true)
    ↔ (to_ascii_lowercase zeros ≡ sign toy_digest merchant genuine)
verify_iff_example = verify_iff toy_digest merchant genuine zeros

verify-sign_with_params_example :
    (verify toy_digest merchant genuine (sign toy_digest merchant (from_iter fields)) ≡ true)
    × (get genuine (codes "sign") ≡ some (sign toy_digest merchant (from_iter fields)))
    × (get genuine (codes "sign_type") ≡ some sign_type_md5)
    × ((k : Text) → is_unsigned k ≡ false → get genuine k ≡ get (from_iter fields) k)
verify-sign_with_params_example =
    verify-sign_with_params toy_digest merchant (from_iter fields)
      (sign toy_digest merchant (from_iter fields))
      (lower-sign toy_digest merchant (from_iter fields))

abbrev one_order : List (Text × Text)
one_order = (codes "a", codes "1") ∷ (codes "b", codes "2") ∷ []

abbrev other_order : List (Text × Text)
other_order = (codes "b", codes "2") ∷ (codes "a", []) ∷ (codes "a", codes "1") ∷ []

sign_ext_example :
    sign toy_digest merchant (from_iter one_order)
    ≡ sign toy_digest merchant (from_iter other_order)
unfolding from_iter
sign_ext_example =
    sign_ext toy_digest merchant (from_iter one_order) (from_iter other_order)
      (from_iter-IsValid one_order) (from_iter-IsValid other_order) (λ k h. refl)

abbrev entries : List RawNotifyEntry
entries =
    record { key = codes "a"; value = codes "1"; source = NotifySource.query }
    ∷ record { key = codes "b"; value = codes "2"; source = NotifySource.form }
    ∷ record { key = codes "a"; value = codes "1"; source = NotifySource.form }
    ∷ []

canonicalize-merges_example : IsMerged entries (from_iter one_order)
unfolding canonicalize epay_sdk_rust.Notify.Canonical.collect epay_sdk_rust.BTreeMap.lookup
    epay_sdk_rust.BTreeMap.insert epay_sdk_rust.Notify.Canonical.check_conflicts text_eq from_iter
    epay_sdk_rust.Notify.Canonical.add_missing epay_sdk_rust.Params.contains
canonicalize-merges_example = canonicalize-merges entries {params = from_iter one_order} refl

abbrev parsed : List RawNotifyEntry
parsed =
    record { key = codes "a"; value = codes "1"; source = NotifySource.query }
    ∷ record { key = codes "b"; value = []; source = NotifySource.form }
    ∷ []

parse_raw_bounds_example :
    (encoded_len (some (codes "a=1")) + encoded_len (some (codes "b")) ≤ 16384)
    × (length parsed ≤ 128)
    × ((from_query : List RawNotifyEntry) × (from_form : List RawNotifyEntry) × (parsed
          ≡ from_query ++ from_form)
        × All (IsEntry NotifySource.query) from_query
        × All (IsEntry NotifySource.form) from_form)
unfolding toy_percent parse_raw_with_limits len epay_sdk_rust.Notify.parse_source
    epay_sdk_rust.Notify.parse_pairs split epay_sdk_rust.Notify.parse_pair
    epay_sdk_rust.Notify.decode_component epay_sdk_rust.Notify.validate_percent_encoding
    epay_sdk_rust.Notify.is_escaped epay_sdk_rust.Notify.split_pair split_once
    epay_sdk_rust.Notify.plus_to_space
parse_raw_bounds_example =
    parse_raw_bounds toy_percent (some (codes "a=1")) (some (codes "b")) default_limits parsed refl
