-- ===== src/Text/Decimal.antt =====
-- Decimal printing and parsing of Rust's integers.
pub mod RoundTrip
use epay_sdk_rust.Common.{
  ℕ, zero, suc, ◌+◌, ◌-◌, ◌*◌, ◌/◌, ◌%◌, ◌≡◌, refl, ◌&&◌, Option, none, some, List, [], ◌∷◌, ltb,
  leb, ◌==◌, if◌then◌else◌,
}

-- The decimal digits of `n`, put before `out`; the fuel is the number of rounds left.
unfoldable pub show_from : ℕ → ℕ → List ℕ → List ℕ
show_from zero n out = out
show_from (suc f) n out =
    let rest = show_from f (n / 10) ((b'0' + n % 10) ∷ out) in
    if ltb n 10 then (b'0' + n) ∷ out else rest

-- `to_string` of an unsigned integer
unfoldable pub to_string : ℕ → List ℕ
unfolding show_from
to_string n = show_from (suc n) n []

-- The digits of an integer below the limit; `none` is Rust's `ParseIntError`.
unfoldable pub parse_from : ℕ → ℕ → List ℕ → Option ℕ
parse_from limit acc [] = some acc
parse_from limit acc (c ∷ s) =
    let next = acc * 10 + (c - b'0') in
    if leb b'0' c && leb c b'9' && ltb next limit then parse_from limit next s else none

unfoldable pub parse_digits : ℕ → List ℕ → Option ℕ
unfolding parse_from
parse_digits limit [] = none
parse_digits limit (c ∷ s) = parse_from limit 0 (c ∷ s)

-- `str::parse` for an unsigned type with values below `limit`: one leading `+` is allowed.
unfoldable pub parse_unsigned : ℕ → List ℕ → Option ℕ
unfolding parse_digits
parse_unsigned limit [] = none
parse_unsigned limit (c ∷ s) =
    if c == b'+' then parse_digits limit s else parse_digits limit (c ∷ s)

test_show : to_string 16384 ≡ b'1' ∷ b'6' ∷ b'3' ∷ b'8' ∷ b'4' ∷ []
unfolding to_string
test_show = refl
