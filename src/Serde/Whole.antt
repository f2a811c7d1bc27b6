-- ===== src/Serde/Whole.antt =====
-- What the conversions of a float to an integer read.
use epay_sdk_rust.Common.{
  ℕ, zero, suc, ◌-◌, ◌^◌, ◌<◌, min, ◌≡◌, refl, ◌↔◌, Bool, true, false, Option, none, some, arith,
  if◌then◌else◌,
}
use epay_sdk_rust.Common.Int.{ℤ, pos, negsuc}
use epay_sdk_rust.Serde.{try_signed, try_unsigned, integral_f64, and_then}
use epay_sdk_rust.Serde.Floats.{
  F64, nan, infinite, finite, is_integral, whole_part, signed, as_i128,
}
use epay_sdk_rust.Serde.Numerals.{InSigned}

-- a float that is the whole number
abbrev pub IsWhole : F64 → ℤ → Type 0
IsWhole nan z = true ≡ false
IsWhole (infinite _) z = true ≡ false
IsWhole (finite negative m e) z =
    (is_integral (finite negative m e) ≡ true) × (signed negative (whole_part m e) ≡ z)

gated :
    (b : Bool) (x : ℤ) {B : Type 0} (try : ℤ → Option B) (v : B)
    → (and_then (if b then some x else none) try ≡ some v) ↔ ((b ≡ true) × (try x ≡ some v))
gated true x try v = (λ h. (refl, h), λ a. a.1)
gated false x try v = (λ h. cc (h), λ a. cc (a.0))

as_i128-finite :
    (negative : Bool) (m : ℕ) (e : ℤ)
    → as_i128 (finite negative m e)
      ≡ signed negative (min (whole_part m e) (if negative then 2 ^ 127 else 2 ^ 127 - 1))
unfolding as_i128
as_i128-finite false m e = refl
as_i128-finite true m e = refl

-- a value that is cut off at the bounds of an `i128` is out of range before and after
cut_signed :
    (half : ℕ) (negative : Bool) (w : ℕ) (z : ℤ)
    → half < 2 ^ 127
    → (try_signed half (signed negative (min w (if negative then 2 ^ 127 else 2 ^ 127 - 1)))
        ≡ some z)
      ↔ ((signed negative w ≡ z) × InSigned half z)
unfolding signed try_signed
cut_signed half false w (pos n) small = ground (arith, small)
cut_signed half false w (negsuc n) small = ground (arith, small)
cut_signed half true zero (pos n) small = ground (arith, small)
cut_signed half true zero (negsuc n) small = ground (arith, small)
cut_signed half true (suc w) (pos n) small =
    let cut : min (suc w) (2 ^ 127) ≡ suc (min w (2 ^ 127 - 1)) = omega arith in
    rw (cut) (ground (arith, small))
cut_signed half true (suc w) (negsuc n) small =
    let cut : min (suc w) (2 ^ 127) ≡ suc (min w (2 ^ 127 - 1)) = omega arith in
    rw (cut) (ground (arith, small))

pub float_signed :
    (half : ℕ) (v : F64) (z : ℤ)
    → half < 2 ^ 127
    → (and_then (integral_f64 v) (try_signed half) ≡ some z) ↔ (IsWhole v z × InSigned half z)
unfolding integral_f64 is_integral as_i128
float_signed half nan z small = ground arith
float_signed half (infinite negative) z small = ground arith
float_signed half (finite negative m e) z small =
    let gate = gated (is_integral (finite negative m e)) _ (try_signed half) z in
    let cut = cut_signed half negative (whole_part m e) z small in
    rw (as_i128-finite negative m e) (
      λ h.
          (let (whole, read) = gate.0 h in
            let (value, inside) = cut.0 read in ((whole, value), inside)),
      λ a. gate.1 (a.0.0, cut.1 (a.0.1, a.1)),
    )

cut_unsigned :
    (limit : ℕ) (negative : Bool) (w n : ℕ)
    → limit < 2 ^ 127
    → (try_unsigned limit (signed negative (min w (if negative then 2 ^ 127 else 2 ^ 127 - 1)))
        ≡ some n)
      ↔ ((signed negative w ≡ pos n) × (n < limit))
unfolding signed try_unsigned
cut_unsigned limit false w n small = ground (arith, small)
cut_unsigned limit true zero n small = ground (arith, small)
cut_unsigned limit true (suc w) n small =
    let cut : min (suc w) (2 ^ 127) ≡ suc (min w (2 ^ 127 - 1)) = omega arith in
    rw (cut) (ground (arith, small))

pub float_unsigned :
    (half : ℕ) (v : F64) (z : ℕ)
    → half < 2 ^ 127
    → (and_then (integral_f64 v) (try_unsigned half) ≡ some z) ↔ (IsWhole v (pos z) × (z < half))
unfolding integral_f64 is_integral as_i128
float_unsigned half nan z small = ground arith
float_unsigned half (infinite negative) z small = ground arith
float_unsigned half (finite negative m e) z small =
    let gate = gated (is_integral (finite negative m e)) _ (try_unsigned half) z in
    let cut = cut_unsigned half negative (whole_part m e) z small in
    rw (as_i128-finite negative m e) (
      λ h.
          (let (whole, read) = gate.0 h in
            let (value, inside) = cut.0 read in ((whole, value), inside)),
      λ a. gate.1 (a.0.0, cut.1 (a.0.1, a.1)),
    )
