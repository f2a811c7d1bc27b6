-- ===== src/Crates/Decimals.antt =====
-- The package `rust_decimal`: what the library uses of `Decimal`. A value has at most 28 decimal
-- places, so its product with 10 ^ 28 is an integer, by which the documented behaviour is stated.
pub mod Toy
use epay_sdk_rust.Common.{
  ℕ, zero, suc, ◌+◌, ◌*◌, ◌/◌, ◌%◌, ◌^◌, ◌<◌, ◌≡◌, ◌↔◌, Bool, true, Option, none, some, [], ◌∷◌,
  ◌++◌, ltb, ◌==◌, if◌then◌else◌,
}
use epay_sdk_rust.Common.Int.{ℤ, pos, negsuc, is_negative}
use epay_sdk_rust.Text.{Text}
use epay_sdk_rust.Text.Decimal.{to_string}

-- one, and one hundredth
abbrev pub unit : ℕ
unit = 10 ^ 28

abbrev pub cent : ℕ
cent = 10 ^ 26

abbrev pub i64_limit : ℕ
i64_limit = 2 ^ 63

-- 0 - n
abbrev pub negated : ℕ → ℤ
negated zero = pos 0
negated (suc n) = negsuc n

-- a number of hundredths with two decimal places
unfoldable pub cents_text : ℕ → Text
cents_text n = to_string (n / 100) ++ b'.' ∷ (b'0' + n % 100 / 10) ∷ (b'0' + n % 10) ∷ []

abbrev pub is_le_zero : ℤ → Bool
is_le_zero (pos n) = n == 0
is_le_zero (negsuc n) = true

pub record Decimals : Type 1 where
  pub Decimal : Type 0
  pub scaled : Decimal → ℤ
  pub from_str : Text → Option Decimal
  pub from_int : ℤ → Decimal
  pub le_zero : Decimal → Bool
  pub lt_zero : Decimal → Bool
  pub equal : Decimal → Decimal → Bool
  -- `round_dp_with_strategy(2, MidpointAwayFromZero)`
  pub round_cents : Decimal → Decimal
  pub div : Decimal → Decimal → Decimal
  pub checked_mul : Decimal → Decimal → Option Decimal
  pub to_i64 : Decimal → Option ℤ
  -- `format!("{:.2}", d)`
  pub format_cents : Decimal → Text
  pub scaled-from_int : (n : ℕ) → n < 2 ^ 64 → scaled (from_int (pos n)) ≡ pos (n * unit)
  pub le_zero_lem : (d : Decimal) → le_zero d ≡ is_le_zero (scaled d)
  pub lt_zero_lem : (d : Decimal) → lt_zero d ≡ is_negative (scaled d)
  pub equal_iff : (a b : Decimal) → (equal a b ≡ true) ↔ (scaled a ≡ scaled b)
  pub round_pos :
      (d : Decimal) (n : ℕ)
      → scaled d ≡ pos n
      → scaled (round_cents d) ≡ pos ((n + cent / 2) / cent * cent)
  pub round_neg :
      (d : Decimal) (n : ℕ)
      → scaled d ≡ negsuc n
      → scaled (round_cents d) ≡ negated ((suc n + cent / 2) / cent * cent)
  pub div_hundred :
      (d e : Decimal) (n : ℕ)
      → scaled d ≡ pos (n * unit)
      → scaled e ≡ pos (100 * unit)
      → n < i64_limit
      → scaled (div d e) ≡ pos (n * cent)
  pub mul_hundred :
      (d e r : Decimal) (n : ℕ)
      → scaled d ≡ pos (n * cent)
      → scaled e ≡ pos (100 * unit)
      → checked_mul d e ≡ some r
      → scaled r ≡ pos (n * unit)
  pub mul_in_range :
      (d e : Decimal) (n : ℕ)
      → scaled d ≡ pos (n * cent)
      → scaled e ≡ pos (100 * unit)
      → n < i64_limit
      → (r : Decimal) × (checked_mul d e ≡ some r)
  pub to_i64_lem :
      (d : Decimal) (n : ℕ)
      → scaled d ≡ pos (n * unit)
      → to_i64 d ≡ (if ltb n i64_limit then some (pos n) else none)
  pub format_lem : (d : Decimal) (n : ℕ) → scaled d ≡ pos (n * cent) → format_cents d ≡ cents_text n
  pub from_str_lem :
      (n : ℕ)
      → n < 2 ^ 96
      → (d : Decimal) × (from_str (cents_text n) ≡ some d) × (scaled d ≡ pos (n * cent))
