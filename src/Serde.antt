-- ===== src/Serde.antt =====
-- serde_util.rs: the lenient integers. What the deserializer hands to a visitor is an `Input`; the
-- text of an error is left out.
pub mod Floats
pub mod Digits
pub mod Numerals
pub mod Whole
pub mod Ranges
use epay_sdk_rust.Common.{
  ℕ, zero, suc, ◌^◌, Option, none, some, [], ◌∷◌, ltb, ◌==◌, if◌then◌else◌, is_nil,
}
use epay_sdk_rust.Text.{Text}
use epay_sdk_rust.Common.Int.{ℤ, pos, negsuc}
use epay_sdk_rust.Text.Decimal.{parse_digits, parse_unsigned}
use Floats.{F64, is_integral, as_i128}

-- the value that a deserializer finds, by the `visit_` method that it calls; `other` has none
pub data Input : Type 0 where
  int : (value : ℤ) → Input
  uint : (value : ℕ) → Input
  float : (value : F64) → Input
  str : (value : Text) → Input
  string : (value : Text) → Input
  null : Input
  unit : Input
  other : Input

-- `-n`
abbrev pub minus : ℕ → ℤ
minus zero = pos 0
minus (suc n) = negsuc n

-- `try_from` for signed and unsigned types with `half` values of each sign, or `limit` values
unfoldable pub try_signed : ℕ → ℤ → Option ℤ
try_signed half (pos n) = if ltb n half then some (pos n) else none
try_signed half (negsuc n) = if ltb n half then some (negsuc n) else none

unfoldable pub try_unsigned : ℕ → ℤ → Option ℕ
try_unsigned limit (pos n) = if ltb n limit then some n else none
try_unsigned limit (negsuc n) = none

-- `Option::map`
abbrev pub mapped {ℓ κ} : {A : Type ℓ} {B : Type κ} → (A → B) → Option A → Option B
mapped f none = none
mapped f (some a) = some (f a)

-- the digits behind a `-` of a signed type, whose least value is `-half`
unfoldable pub parse_negative : ℕ → Text → Option ℤ
parse_negative half s = mapped minus (parse_digits (suc half) s)

unfoldable pub parse_positive : ℕ → Text → Option ℤ
parse_positive half s = mapped pos (parse_unsigned half s)

-- `str::parse` for a signed type
unfoldable pub parse_signed : ℕ → Text → Option ℤ
parse_signed half [] = none
parse_signed half (c ∷ s) = if c == b'-' then parse_negative half s else parse_positive half (c ∷ s)

abbrev pub i64_half : ℕ
i64_half = 2 ^ 63

abbrev pub i32_half : ℕ
i32_half = 2 ^ 31

abbrev pub u64_limit : ℕ
u64_limit = 2 ^ 64

-- `integral_f64`
unfoldable pub integral_f64 : F64 → Option ℤ
integral_f64 v = if is_integral v then some (as_i128 v) else none

abbrev pub and_then {ℓ κ} : {A : Type ℓ} {B : Type κ} → Option A → (A → Option B) → Option B
and_then none f = none
and_then (some a) f = f a

-- `IntVisitor`
unfoldable pub visit_int : Input → Option ℤ
visit_int (int v) = some v
visit_int (uint v) = try_signed i64_half (pos v)
visit_int (float v) = and_then (integral_f64 v) (try_signed i64_half)
visit_int (str v) = if is_nil v then some (pos 0) else parse_signed i64_half v
visit_int (string v) = if is_nil v then some (pos 0) else parse_signed i64_half v
visit_int null = some (pos 0)
visit_int unit = some (pos 0)
visit_int other = none

-- `UIntVisitor`
unfoldable pub visit_uint : Input → Option ℕ
visit_uint (int v) = try_unsigned u64_limit v
visit_uint (uint v) = some v
visit_uint (float v) = and_then (integral_f64 v) (try_unsigned u64_limit)
visit_uint (str v) = if is_nil v then some 0 else parse_unsigned u64_limit v
visit_uint (string v) = if is_nil v then some 0 else parse_unsigned u64_limit v
visit_uint null = some 0
visit_uint unit = some 0
visit_uint other = none

-- `flex_i64`, `flex_u64`
abbrev pub flex_i64 : Input → Option ℤ
flex_i64 input = visit_int input

abbrev pub flex_u64 : Input → Option ℕ
flex_u64 input = visit_uint input

-- `flex_i32`
unfoldable pub flex_i32 : Input → Option ℤ
flex_i32 input = and_then (flex_i64 input) (try_signed i32_half)

-- `default_on_null`, on the outcome of `Option::<T>::deserialize`
unfoldable pub default_on_null {ℓ} : {T : Type ℓ} → T → Option (Option T) → Option T
default_on_null default none = none
default_on_null default (some none) = some default
default_on_null default (some (some value)) = some value
