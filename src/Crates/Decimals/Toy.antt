-- ===== src/Crates/Decimals/Toy.antt =====
-- An instance of the interface to `rust_decimal` that is not bounded: a value is the integer that
-- it has in units of 10 ^ -28.
use epay_sdk_rust.Common.{
  ℕ, suc, ◌+◌, ◌-◌, ◌*◌, ◌/◌, ◌%◌, ◌^◌, ◌<◌, ◌≡◌, refl, ap, Option, none, some, [], ◌∷◌, ◌++◌,
  arith, ltb, if◌then◌else◌, All,
}
use epay_sdk_rust.Common.Int.{ℤ, pos, negsuc, int_eq, int_eq_iff, is_negative}
use epay_sdk_rust.Text.{Text, split_once}
use epay_sdk_rust.Text.Decimal.{to_string, parse_digits}
use epay_sdk_rust.Text.Decimal.RoundTrip.{IsDigit, to_string-IsDigit, parse_digits-to_string}
use epay_sdk_rust.Crates.Decimals.{Decimals, cent, unit, negated, is_le_zero, i64_limit, cents_text}

unfoldable pub times : ℤ → ℕ → ℤ
times (pos n) k = pos (n * k)
times (negsuc n) k = negated (suc n * k)

unfoldable pub toy_round : ℤ → ℤ
toy_round (pos n) = pos ((n + cent / 2) / cent * cent)
toy_round (negsuc n) = negated ((suc n + cent / 2) / cent * cent)

unfoldable pub toy_div : ℤ → ℤ → ℤ
toy_div (pos a) (pos b) = pos (a * unit / b)
toy_div a b = pos 0

unfoldable pub toy_mul : ℤ → ℤ → Option ℤ
toy_mul (pos a) (pos b) = some (pos (a * b / unit))
toy_mul a b = none

unfoldable pub toy_to_i64 : ℤ → Option ℤ
toy_to_i64 (pos n) = if ltb (n / unit) i64_limit then some (pos (n / unit)) else none
toy_to_i64 (negsuc n) = none

unfoldable pub toy_format : ℤ → Text
toy_format (pos n) = cents_text (n / cent)
toy_format (negsuc n) = []

-- whole yuan, and two decimal places
unfoldable pub toy_parts : Text × Text → Option ℤ
toy_parts (whole, a ∷ b ∷ []) = elim (parse_digits (2 ^ 96) whole) [
  | none ↦ none
  | some n ↦ some (pos ((n * 100 + (a - b'0') * 10 + (b - b'0')) * cent))
]
toy_parts _ = none

unfoldable pub toy_from_str : Text → Option ℤ
toy_from_str s = elim (split_once s b'.') [ none ↦ none | some kv ↦ toy_parts kv ]

split_once_digits :
    (s rest : Text) → All IsDigit s → split_once (s ++ b'.' ∷ rest) b'.' ≡ some (s, rest)
unfolding split_once
split_once_digits [] rest h = refl
split_once_digits (c ∷ s) rest (hc, hs) = ground (arith, split_once_digits s rest hs)

pub toy_from_str_lem :
    (n : ℕ) → n < 2 ^ 96 → (d : ℤ) × (toy_from_str (cents_text n) ≡ some d) × (d ≡ pos (n * cent))
unfolding toy_from_str cents_text toy_parts
toy_from_str_lem n h = (
  pos (n * cent),
  ground (
    arith,
    split_once_digits (to_string (n / 100)) ((b'0' + n % 100 / 10) ∷ (b'0' + n % 10) ∷ [])
        (to_string-IsDigit (n / 100)),
    parse_digits-to_string (2 ^ 96) (n / 100) (omega arith),
  ),
  refl,
)

pub toy_div_lem :
    (d e : ℤ) (n : ℕ)
    → d ≡ pos (n * unit)
    → e ≡ pos (100 * unit)
    → n < i64_limit
    → toy_div d e ≡ pos (n * cent)
unfolding toy_div
toy_div_lem d e n h k l = rw (h, k) (ap pos (omega arith))

pub toy_mul_lem :
    (d e r : ℤ) (n : ℕ)
    → d ≡ pos (n * cent)
    → e ≡ pos (100 * unit)
    → toy_mul d e ≡ some r
    → r ≡ pos (n * unit)
unfolding toy_mul
toy_mul_lem d e r n h k l =
    let exact : toy_mul (pos (n * cent)) (pos (100 * unit)) ≡ some (pos (n * unit)) =
      unfold toy_mul in ap (λ v. some (pos v)) (omega arith) in
    cc (exact, h, k)

pub toy_mul_in_range :
    (d e : ℤ) (n : ℕ)
    → d ≡ pos (n * cent)
    → e ≡ pos (100 * unit)
    → n < i64_limit
    → (r : ℤ) × (toy_mul d e ≡ some r)
toy_mul_in_range d e n h k l =
    (pos (n * cent * (100 * unit) / unit), rw (h, k) (unfold toy_mul in refl))

pub toy_to_i64_lem :
    (d : ℤ) (n : ℕ)
    → d ≡ pos (n * unit)
    → toy_to_i64 d ≡ (if ltb n i64_limit then some (pos n) else none)
unfolding toy_to_i64
toy_to_i64_lem d n h = rw h (ground arith)

pub toy_format_lem : (d : ℤ) (n : ℕ) → d ≡ pos (n * cent) → toy_format d ≡ cents_text n
unfolding toy_format
toy_format_lem d n h = rw h (ap cents_text (omega arith))

pub toy_round_pos : (d : ℤ) (n : ℕ) → d ≡ pos n → toy_round d ≡ pos ((n + cent / 2) / cent * cent)
toy_round_pos d n h = rw h (unfold toy_round in refl)

pub toy_round_neg :
    (d : ℤ) (n : ℕ) → d ≡ negsuc n → toy_round d ≡ negated ((suc n + cent / 2) / cent * cent)
toy_round_neg d n h = rw h (unfold toy_round in refl)

unfoldable pub toy_decimals : Decimals
unfolding toy_from_str times toy_round toy_div toy_mul toy_to_i64 toy_format
toy_decimals = record {
  Decimal = ℤ;
  scaled = λ d. d;
  from_str = toy_from_str;
  from_int = λ n. times n unit;
  le_zero = is_le_zero;
  lt_zero = is_negative;
  equal = int_eq;
  round_cents = toy_round;
  div = toy_div;
  checked_mul = toy_mul;
  to_i64 = toy_to_i64;
  format_cents = toy_format;
  scaled-from_int = λ n h. refl;
  le_zero_lem = λ d. refl;
  lt_zero_lem = λ d. refl;
  equal_iff = int_eq_iff;
  round_pos = toy_round_pos;
  round_neg = toy_round_neg;
  div_hundred = toy_div_lem;
  mul_hundred = toy_mul_lem;
  mul_in_range = toy_mul_in_range;
  to_i64_lem = toy_to_i64_lem;
  format_lem = toy_format_lem;
  from_str_lem = toy_from_str_lem;
}
