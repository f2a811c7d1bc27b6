-- ===== src/Notify/Fixture/Accepted.antt =====
-- A notification with well-formed fields that is signed with the merchant key is accepted.
use epay_sdk_rust.Common.{
  ℕ, ◌/◌, ◌^◌, ◌<◌, ◌≡◌, refl, sym, ap, ◌∙◌, ◌≢◌, true, false, Option, none, some, List, [], ◌∷◌,
  ◌++◌, is_nil,
}
use epay_sdk_rust.Text.{Text, codes, text_eq, eq_ignore_ascii_case}
use epay_sdk_rust.Text.Decimal.{to_string}
use epay_sdk_rust.Text.Decimal.RoundTrip.{to_string-ne-nil, parse_unsigned-to_string}
use epay_sdk_rust.Types.{pay_type_as_str, pay_type_from}
use epay_sdk_rust.Crates.Digest.{Digest}
use epay_sdk_rust.Crates.Decimals.{Decimals, cents_text}
use epay_sdk_rust.BTreeMap
use epay_sdk_rust.Error.{Result, ok}
use epay_sdk_rust.Params.{empty, get, is_unsigned}
use epay_sdk_rust.Params.Valid.{empty-IsValid}
use epay_sdk_rust.Params.Replay.{Op, put, put_opt, View, apply, run, step, replay, run-replay}
use epay_sdk_rust.Signer.{Signer, sign, sign_with_params, sign_type_md5}
use epay_sdk_rust.Signer.Verify.{lower-sign, verify_iff, verify-sign_with_params, sign-not_nil}
use epay_sdk_rust.Money.{Money, from_yuan_str, to_epay_string, money_eq}
use epay_sdk_rust.Money.Exact.{HasCents}
use epay_sdk_rust.Money.RoundTrip.{from_yuan_str-to_epay_string}
use epay_sdk_rust.Validation.{
  validate_trade_no, validate_out_trade_no, validate_pay_type, validate_name,
}
use epay_sdk_rust.Notify.Verify.{u64_limit, check_status, or_empty, NotifyData, verify_notify}
use epay_sdk_rust.Notify.Verify.Authentic.{IsAuthentic, verify_notify_iff}
use epay_sdk_rust.Notify.Verify.Authentic.Parts.{IsSigned}
use epay_sdk_rust.Notify.Fixture.{NotifyFixture, unsigned_params, fixture_params}

-- a text that a check accepts and that is not empty
abbrev pub IsField : (Text → Result (Unit {0})) → Text → Type 0
IsField check v = (is_nil v ≡ false) × (check v ≡ ok tt)

append-ne-nil : (s : Text) (c : ℕ) (t : Text) → is_nil (s ++ c ∷ t) ≡ false
append-ne-nil [] c t = refl
append-ne-nil (d ∷ s) c t = refl

cents_text-ne-nil : (n : ℕ) → is_nil (cents_text n) ≡ false
unfolding cents_text
cents_text-ne-nil n = append-ne-nil (to_string (n / 100)) b'.' _

module _ (dec : Decimals) (f : NotifyFixture dec) where
  -- Every field of the notification is well formed.
  pub record IsSendable : Type 0 where
    pub pid_positive : f.pid ≢ 0
    pub pid_fits : f.pid < u64_limit
    pub trade_no : IsField validate_trade_no f.trade_no
    pub out_trade_no : IsField validate_out_trade_no f.out_trade_no
    pub pay_type : IsField (λ s. validate_pay_type (pay_type_from s)) (pay_type_as_str f.pay_type)
    pub name : IsField validate_name f.name
    pub cents : ℕ
    pub cents_positive : 0 < cents
    pub cents_fit : cents < 2 ^ 96
    pub money : HasCents dec f.money cents
    pub trade_status : IsField check_status f.trade_status.value

  abbrev pub required_ops : List Op
  required_ops =
      put (codes "pid") (to_string f.pid)
      ∷ put (codes "trade_no") f.trade_no
      ∷ put (codes "out_trade_no") f.out_trade_no
      ∷ put (codes "type") (pay_type_as_str f.pay_type)
      ∷ put (codes "name") f.name
      ∷ put (codes "money") (to_epay_string dec f.money)
      ∷ put (codes "trade_status") f.trade_status.value
      ∷ []

  -- what the map holds before `param`
  abbrev pub required_view : View
  required_view = replay required_ops (get empty)

  -- what the unsigned map holds, as the abstract view computes it
  seen :
      (k : Text)
      → get (unsigned_params dec f) k ≡ step (put_opt (codes "param") f.param) required_view k
  unfolding replay unsigned_params run apply
  seen k =
      (run-replay (required_ops ++ put_opt (codes "param") f.param ∷ []) empty empty-IsValid).1 k

  beside_param :
      (o : Option Text) (k : Text)
      → text_eq (codes "param") k ≡ false
      → step (put_opt (codes "param") o) required_view k ≡ required_view k
  unfolding step
  beside_param none k other = refl
  beside_param (some v) k other = rw (other)

  param-seen :
      (o : Option Text)
      → or_empty (step (put_opt (codes "param") o) required_view (codes "param")) ≡ or_empty o
  unfolding step replay text_eq get BTreeMap.lookup
  param-seen none = refl
  param-seen (some []) = refl
  param-seen (some (c ∷ v)) = refl

  module _ (d : Digest) where
    abbrev pub signer : Signer
    signer = record { key = f.key }

    signed-get :
        (k : Text)
        → is_unsigned k ≡ false
        → get (fixture_params dec d f) k ≡ get (unsigned_params dec f) k
    unfolding fixture_params
    signed-get k h =
        (verify-sign_with_params d signer (unsigned_params dec f)
            (sign d signer (unsigned_params dec f)) (lower-sign d signer (unsigned_params dec f))).3
          k h

    -- a required field of the signed map
    field :
        (k v : Text)
        → is_unsigned k ≡ false
        → text_eq (codes "param") k ≡ false
        → required_view k ≡ some v
        → get (fixture_params dec d f) k ≡ some v
    field k v plain other held = signed-get k plain ∙ seen k ∙ beside_param f.param k other ∙ held

    fixture_params-IsSigned : IsSigned d signer (fixture_params dec d f)
    unfolding fixture_params eq_ignore_ascii_case
    fixture_params-IsSigned =
        let p = unsigned_params dec f in
        let (valid, has, typed, _) =
          verify-sign_with_params d signer p (sign d signer p) (lower-sign d signer p) in
        record {
          sign_type = sign_type_md5;
          received = sign d signer p;
          has_sign_type = (typed, refl);
          is_md5 = refl;
          has_sign = (has, sign-not_nil d signer p);
          matches = (verify_iff d signer (sign_with_params d signer p) (sign d signer p)).0 valid;
        }

    -- what the receiver reads from the fixture, with the amount `m`
    abbrev pub received : Money dec → NotifyData dec
    received m = record {
      pid = f.pid;
      trade_no = f.trade_no;
      out_trade_no = f.out_trade_no;
      pay_type = pay_type_from (pay_type_as_str f.pay_type);
      name = f.name;
      money = m;
      trade_status = f.trade_status;
      param = or_empty f.param;
    }

    authentic :
        (s : IsSendable) (m : Money dec)
        → from_yuan_str dec (to_epay_string dec f.money) ≡ ok m
        → is_nil (to_epay_string dec f.money) ≡ false
        → IsAuthentic dec d signer f.pid (fixture_params dec d f) (received m)
    unfolding replay step text_eq is_unsigned
    authentic s m read shown = record {
      signed = fixture_params-IsSigned;
      pid = record {
        raw = to_string f.pid;
        has_pid =
            (field (codes "pid") _ refl refl (rw (to_string-ne-nil f.pid)), to_string-ne-nil f.pid);
        parsed = parse_unsigned-to_string u64_limit f.pid s.pid_fits;
        expected = refl;
        positive = s.pid_positive;
      };
      trade_no =
          ((field (codes "trade_no") _ refl refl (rw (s.trade_no.0)), s.trade_no.0), s.trade_no.1);
      out_trade_no = (
        (field (codes "out_trade_no") _ refl refl (rw (s.out_trade_no.0)), s.out_trade_no.0),
        s.out_trade_no.1,
      );
      channel = pay_type_as_str f.pay_type;
      pay_type =
          ((field (codes "type") _ refl refl (rw (s.pay_type.0)), s.pay_type.0), s.pay_type.1);
      pay_type_read = refl;
      name = ((field (codes "name") _ refl refl (rw (s.name.0)), s.name.0), s.name.1);
      amount = to_epay_string dec f.money;
      money = ((field (codes "money") _ refl refl (rw (shown)), shown), read);
      trade_status = (
        (field (codes "trade_status") _ refl refl (rw (s.trade_status.0)), s.trade_status.0),
        s.trade_status.1,
      );
      param = sym (
          ap or_empty (signed-get (codes "param") refl ∙ seen (codes "param"))
          ∙ param-seen f.param);
    }

    -- The notification that the fixture signs is accepted by `verify_notify` under the same key and
    -- merchant id, with the fields of the fixture and its amount, when every field is well formed:
    -- a merchant id from 1 to the largest u64, valid order numbers, channel, name and status, and an
    -- amount below 2 ^ 96 hundredths.
    pub verify_notify-fixture_params :
        IsSendable
        → (m : Money dec) × (verify_notify dec d signer f.pid (fixture_params dec d f)
            ≡ ok (received m))
          × (money_eq dec m f.money ≡ true)
    verify_notify-fixture_params s =
        let (shown, parsed) =
          from_yuan_str-to_epay_string dec f.money s.cents s.cents_positive s.cents_fit s.money in
        let (m, read, same) = parsed in
        let filled = ap is_nil shown ∙ cents_text-ne-nil s.cents in
        (
          m,
          (verify_notify_iff dec d signer f.pid (fixture_params dec d f) (received m)).1
              (authentic s m read filled),
          same,
        )
