-- ===== src/Notify/Verify/Authentic/Parts.antt =====
-- The checks that `verify_notify` is made of, one by one.
use epay_sdk_rust.Common.{
  ℕ, String, ◌≡◌, subst, ◌≢◌, ◌↔◌, true, false, not, ◌||◌, Option, none, some, arith, ◌==◌, is_nil,
}
use epay_sdk_rust.Text.{Text, codes, to_ascii_lowercase, eq_ignore_ascii_case}
use epay_sdk_rust.Text.Decimal.{parse_unsigned}
use epay_sdk_rust.Crates.Digest.{Digest}
use epay_sdk_rust.Error.{
  Result, ok, ok_or, map_err, notify_error, >>=-eq-ok, ok_or-eq-ok, guard-eq-ok, branch-eq-ok,
  map_err-eq-ok, ok-injective,
}
use epay_sdk_rust.Params.{Params, get}
use epay_sdk_rust.Signer.{Signer, sign, verify, sign_type_md5}
use epay_sdk_rust.Signer.Verify.{verify_iff}
use epay_sdk_rust.Validation.{non_empty}
use epay_sdk_rust.Notify.Verify.{
  u64_limit, missing_field, required, verify_sign, verify_signature, verify_pid, checked,
}

-- the map holds that non-empty value under the key
abbrev pub Field : Params → String → Text → Type 0
Field params key v = (get params (codes key) ≡ some v) × (is_nil v ≡ false)

non_empty_iff :
    (o : Option Text) (v : Text) → (non_empty o ≡ some v) ↔ ((o ≡ some v) × (is_nil v ≡ false))
unfolding non_empty
non_empty_iff none v = ground arith
non_empty_iff (some w) v = ground arith

pub required_sound :
    (params : Params) (key v : Text)
    → required params key ≡ ok v
    → (get params key ≡ some v) × (is_nil v ≡ false)
unfolding required
required_sound params key v h =
    (non_empty_iff (get params key) v).0
      (ok_or-eq-ok (non_empty (get params key)) (missing_field key) h)

pub required_complete :
    (params : Params) (key v : Text)
    → get params key ≡ some v
    → is_nil v ≡ false
    → required params key ≡ ok v
unfolding required
required_complete params key v h k = rw ((non_empty_iff (get params key) v).1 (h, k))

pub checked_sound :
    (params : Params) (key : Text) (check : Text → Result (Unit {0})) (message v : Text)
    → checked params key check message ≡ ok v
    → ((get params key ≡ some v) × (is_nil v ≡ false)) × (check v ≡ ok tt)
unfolding checked
checked_sound params key check message v h =
    let (w, found, h1) = >>=-eq-ok (required params key) _ h in
    let (u, valid, h2) = >>=-eq-ok (map_err (check w) (notify_error message)) _ h1 in
    let same = ok-injective h2 in
    let passed : check w ≡ ok tt = map_err-eq-ok (check w) (notify_error message) valid in
    subst (λ x. ((get params key ≡ some x) × (is_nil x ≡ false)) × (check x ≡ ok tt)) same
      (required_sound params key w found, passed)

pub checked_complete :
    (params : Params) (key : Text) (check : Text → Result (Unit {0})) (message v : Text)
    → get params key ≡ some v
    → is_nil v ≡ false
    → check v ≡ ok tt
    → checked params key check message ≡ ok v
unfolding checked
checked_complete params key check message v h k valid =
    rw (required_complete params key v h k, valid)

-- the signature of the map is the received one, up to the case of the letters
pub record IsSigned (d : Digest) (signer : Signer) (params : Params) : Type 0 where
  pub sign_type : Text
  pub received : Text
  pub has_sign_type : Field params "sign_type" sign_type
  pub is_md5 : eq_ignore_ascii_case sign_type sign_type_md5 ≡ true
  pub has_sign : Field params "sign" received
  pub matches : to_ascii_lowercase received ≡ sign d signer params

pub verify_signature_sound :
    (d : Digest) (signer : Signer) (params : Params)
    → verify_signature d signer params ≡ ok tt
    → IsSigned d signer params
unfolding verify_signature verify_sign
verify_signature_sound d signer params h =
    let (t, found, h1) = >>=-eq-ok (required params (codes "sign_type")) _ h in
    let (md5, h2) = branch-eq-ok (eq_ignore_ascii_case t sign_type_md5) _ _ h1 in
    let (r, found', h3) = >>=-eq-ok (required params (codes "sign")) _ h2 in
    let (valid, _) = branch-eq-ok (verify d signer params r) _ _ h3 in
    record {
      sign_type = t;
      received = r;
      has_sign_type = required_sound params (codes "sign_type") t found;
      is_md5 = md5;
      has_sign = required_sound params (codes "sign") r found';
      matches = (verify_iff d signer params r).0 valid;
    }

pub verify_signature_complete :
    (d : Digest) (signer : Signer) (params : Params)
    → IsSigned d signer params
    → verify_signature d signer params ≡ ok tt
unfolding verify_signature verify_sign
verify_signature_complete d signer params s = rw (
  required_complete params (codes "sign_type") s.sign_type s.has_sign_type.0 s.has_sign_type.1,
  s.is_md5,
  required_complete params (codes "sign") s.received s.has_sign.0 s.has_sign.1,
  (verify_iff d signer params s.received).1 s.matches,
)

-- the map carries that merchant id, and it is the configured one
pub record HasPid (expected_pid : ℕ) (params : Params) (pid : ℕ) : Type 0 where
  pub raw : Text
  pub has_pid : Field params "pid" raw
  pub parsed : parse_unsigned u64_limit raw ≡ some pid
  pub expected : pid ≡ expected_pid
  pub positive : pid ≢ 0

pub verify_pid_sound :
    (expected_pid : ℕ) (params : Params) (pid : ℕ)
    → verify_pid expected_pid params ≡ ok pid
    → HasPid expected_pid params pid
unfolding verify_pid
verify_pid_sound expected_pid params pid h =
    let (raw, found, h1) = >>=-eq-ok (required params (codes "pid")) _ h in
    let (n, parsed, h2) = >>=-eq-ok (ok_or (parse_unsigned u64_limit raw) _) _ h1 in
    let (bad, h3) = guard-eq-ok (n == 0 || not (n == expected_pid)) _ (ok n) h2 in
    let same : n ≡ pid = ok-injective h3 in
    subst (HasPid expected_pid params) same (record {
      raw = raw;
      has_pid = required_sound params (codes "pid") raw found;
      parsed = ok_or-eq-ok (parse_unsigned u64_limit raw) _ parsed;
      expected = ground (arith, bad);
      positive = ground (arith, bad);
    })

pub verify_pid_complete :
    (expected_pid : ℕ) (params : Params) (pid : ℕ)
    → HasPid expected_pid params pid
    → verify_pid expected_pid params ≡ ok pid
unfolding verify_pid
verify_pid_complete expected_pid params pid p =
    let fits : (pid == 0 || not (pid == expected_pid)) ≡ false =
      ground (arith, p.expected, p.positive) in
    rw (required_complete params (codes "pid") p.raw p.has_pid.0 p.has_pid.1, p.parsed, fits)
