-- ===== src/Serde/Ranges.antt =====
-- The lenient integers accept exactly what denotes an integer of the range, and never wrap.
use epay_sdk_rust.Common.{
  ℕ, ◌<◌, ◌≡◌, refl, ap, subst, ◌↔◌, ◌⊎◌, inl, inr, true, false, Option, none, some, [], ◌∷◌, arith,
  if◌then◌else◌, is_nil,
}
use epay_sdk_rust.Text.{Text}
use epay_sdk_rust.Common.Int.{ℤ, pos, negsuc}
use epay_sdk_rust.Text.Decimal.{parse_unsigned}
use epay_sdk_rust.Serde.{
  Input, int, uint, float, str, string, null, unit, other, try_signed, i64_half, i32_half,
  u64_limit, and_then, visit_int, visit_uint, flex_i64, flex_u64, flex_i32,
}
use epay_sdk_rust.Serde.Digits.{digits_value, IsDigits, unplus, parse_unsigned_iff}
use epay_sdk_rust.Serde.Numerals.{
  InSigned, try_signed_iff, try_unsigned_iff, IsNumeral, lenient_text,
}
use epay_sdk_rust.Serde.Whole.{IsWhole, float_signed, float_unsigned}

-- The integer that a value stands for, without any limit: a whole number, an empty text or a null
-- as 0, a decimal numeral, or a float that is whole.
abbrev pub Denotes : Input → ℤ → Type 0
Denotes (int v) z = v ≡ z
Denotes (uint n) z = pos n ≡ z
Denotes (float v) z = IsWhole v z
Denotes (str s) z = (is_nil s ≡ true) × (pos 0 ≡ z) ⊎ IsNumeral s z
Denotes (string s) z = (is_nil s ≡ true) × (pos 0 ≡ z) ⊎ IsNumeral s z
Denotes null z = pos 0 ≡ z
Denotes unit z = pos 0 ≡ z
Denotes other z = true ≡ false

-- what the deserializer hands over is an `i64` or a `u64`
abbrev pub IsWire : Input → Type 0
IsWire (int v) = InSigned i64_half v
IsWire (uint n) = n < u64_limit
IsWire _ = Unit

-- `flex_i64` reads exactly the values that denote an integer of an `i64`, as that integer.
pub flex_i64_iff :
    (input : Input) (z : ℤ)
    → IsWire input
    → (flex_i64 input ≡ some z) ↔ (Denotes input z × InSigned i64_half z)
unfolding visit_int try_signed
flex_i64_iff (int v) z wire = (
  λ h. (let same : v ≡ z = cc (h) in (same, subst (InSigned i64_half) same wire)),
  λ a. ap some a.0,
)
flex_i64_iff (uint n) z wire = try_signed_iff i64_half (pos n) z
flex_i64_iff (float v) z wire = float_signed i64_half v z (omega arith)
flex_i64_iff (str s) z wire = lenient_text i64_half s z (omega arith)
flex_i64_iff (string s) z wire = lenient_text i64_half s z (omega arith)
flex_i64_iff null z wire = try_signed_iff i64_half (pos 0) z
flex_i64_iff unit z wire = try_signed_iff i64_half (pos 0) z
flex_i64_iff other z wire = ground arith

narrower : (z : ℤ) → InSigned i32_half z → InSigned i64_half z
narrower (pos n) h = omega arith
narrower (negsuc n) h = omega arith

-- `flex_i32` reads exactly the values that denote an integer of an `i32`: what an `i64` or a `u64`
-- holds beyond it is refused and never wrapped.
pub flex_i32_iff :
    (input : Input) (z : ℤ)
    → IsWire input
    → (flex_i32 input ≡ some z) ↔ (Denotes input z × InSigned i32_half z)
unfolding flex_i32
flex_i32_iff input z wire = (
  λ h. narrow (flex_i64 input) h refl,
  λ a.
      rw ((flex_i64_iff input z wire).1 (a.0, narrower z a.1))
        ((try_signed_iff i32_half z z).1 (refl, a.1)),
)
  where
    narrow :
        (o : Option ℤ)
        → and_then o (try_signed i32_half) ≡ some z
        → flex_i64 input ≡ o
        → Denotes input z × InSigned i32_half z
    narrow none h e = cc (h)
    narrow (some v) h e =
        let (same, inside) = (try_signed_iff i32_half v z).0 h in
        (((flex_i64_iff input z wire).0 (cc (e, same))).0, inside)

-- A numeral of an unsigned type: digits behind an optional `+`, and never a `-`.
abbrev pub IsUnsignedNumeral : Text → ℕ → Type 0
IsUnsignedNumeral s n = IsDigits (unplus s) × (digits_value 0 (unplus s) ≡ n)

-- The natural number that a value stands for, without any limit; a text with a sign `-` stands for
-- none, not even `-0`.
abbrev pub DenotesUnsigned : Input → ℕ → Type 0
DenotesUnsigned (str s) n = (is_nil s ≡ true) × (n ≡ 0) ⊎ IsUnsignedNumeral s n
DenotesUnsigned (string s) n = (is_nil s ≡ true) × (n ≡ 0) ⊎ IsUnsignedNumeral s n
DenotesUnsigned input n = Denotes input (pos n)

lenient_unsigned :
    (limit : ℕ) (s : Text) (n : ℕ)
    → 0 < limit
    → ((if is_nil s then some 0 else parse_unsigned limit s) ≡ some n)
      ↔ (((is_nil s ≡ true) × (n ≡ 0) ⊎ IsUnsignedNumeral s n) × (n < limit))
lenient_unsigned limit [] n room = ground arith
lenient_unsigned limit (c ∷ s) n room =
    let iff = parse_unsigned_iff limit (c ∷ s) n room in
    (
      λ h. (let (digits, value, small) = iff.0 h in (inr (digits, value), small)),
      λ a. elim a.0 [
        | inl (empty, _) ↦ cc (empty)
        | inr (digits, value) ↦ iff.1 (digits, value, a.1)
      ],
    )

-- `flex_u64` reads exactly the values that denote a natural number of a `u64`, as that number: a
-- negative number, a text with a `-` and a number beyond the range are refused and never wrapped.
pub flex_u64_iff :
    (input : Input) (n : ℕ)
    → IsWire input
    → (flex_u64 input ≡ some n) ↔ (DenotesUnsigned input n × (n < u64_limit))
unfolding visit_uint
flex_u64_iff (int v) n wire = try_unsigned_iff u64_limit v n
flex_u64_iff (uint m) n wire = ground (arith, wire)
flex_u64_iff (float v) n wire = float_unsigned u64_limit v n (omega arith)
flex_u64_iff (str s) n wire = lenient_unsigned u64_limit s n (omega arith)
flex_u64_iff (string s) n wire = lenient_unsigned u64_limit s n (omega arith)
flex_u64_iff null n wire = ground arith
flex_u64_iff unit n wire = ground arith
flex_u64_iff other n wire = ground arith
