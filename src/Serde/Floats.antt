-- ===== src/Serde/Floats.antt =====
-- Rust's `f64`, as far as the lenient integers use it: a finite one is a signed number of halvings
-- or doublings of a whole mantissa.
use epay_sdk_rust.Common.{ℕ, zero, suc, ◌-◌, ◌*◌, ◌/◌, ◌%◌, ◌^◌, min, Bool, true, false, ◌==◌}
use epay_sdk_rust.Common.Int.{ℤ, pos, negsuc}

pub data F64 : Type 0 where
  nan : F64
  infinite : (negative : Bool) → F64
  finite : (negative : Bool) (mantissa : ℕ) (exponent : ℤ) → F64

-- `v.is_finite() && v.fract() == 0.0`
unfoldable pub is_integral : F64 → Bool
is_integral nan = false
is_integral (infinite _) = false
is_integral (finite _ m (pos e)) = true
is_integral (finite _ m (negsuc e)) = m % 2 ^ suc e == 0

-- the whole part of the absolute value
unfoldable pub whole_part : ℕ → ℤ → ℕ
whole_part m (pos e) = m * 2 ^ e
whole_part m (negsuc e) = m / 2 ^ suc e

-- a sign put before a number
unfoldable pub signed : Bool → ℕ → ℤ
signed false n = pos n
signed true zero = pos 0
signed true (suc n) = negsuc n

-- `v as i128`, which saturates and sends NaN to 0
unfoldable pub as_i128 : F64 → ℤ
as_i128 nan = pos 0
as_i128 (infinite false) = pos (2 ^ 127 - 1)
as_i128 (infinite true) = negsuc (2 ^ 127 - 1)
as_i128 (finite false m e) = signed false (min (whole_part m e) (2 ^ 127 - 1))
as_i128 (finite true m e) = signed true (min (whole_part m e) (2 ^ 127))
