-- ===== src/Serde/Digits.antt =====
-- The numbers that decimal digits denote, without a limit, and that the parsers read them.
use epay_sdk_rust.Common.{
  ℕ, ◌+◌, ◌-◌, ◌*◌, ◌≤◌, ◌<◌, ◌≡◌, refl, ◌↔◌, inl, inr, true, false, some, [], ◌∷◌, arith, ◌==◌,
  if◌then◌else◌, Bool-cases, all, is_nil,
}
use epay_sdk_rust.Text.{Text, is_ascii_digit}
use epay_sdk_rust.Text.Decimal.{parse_from, parse_digits, parse_unsigned}

-- the value of the digits behind those that gave `acc`
abbrev pub digits_value : ℕ → Text → ℕ
digits_value acc [] = acc
digits_value acc (c ∷ s) = digits_value (acc * 10 + (c - b'0')) s

abbrev pub IsDigits : Text → Type 0
IsDigits s = (is_nil s ≡ false) × (all is_ascii_digit s ≡ true)

grows : (s : Text) (acc : ℕ) → acc ≤ digits_value acc s
grows [] acc = omega arith
grows (c ∷ s) acc = let later = grows s (acc * 10 + (c - b'0')) in omega arith

parse_from_iff :
    (limit : ℕ) (s : Text) (acc n : ℕ)
    → acc < limit
    → (parse_from limit acc s ≡ some n)
      ↔ ((all is_ascii_digit s ≡ true) × (digits_value acc s ≡ n) × (n < limit))
unfolding parse_from is_ascii_digit
parse_from_iff limit [] acc n room = ground arith
parse_from_iff limit (c ∷ s) acc n room =
    ground
      (arith, grows s (acc * 10 + (c - b'0')), parse_from_iff limit s (acc * 10 + (c - b'0')) n)

pub parse_digits_iff :
    (limit : ℕ) (s : Text) (n : ℕ)
    → 0 < limit
    → (parse_digits limit s ≡ some n) ↔ (IsDigits s × (digits_value 0 s ≡ n) × (n < limit))
unfolding parse_digits
parse_digits_iff limit [] n room = ground arith
parse_digits_iff limit (c ∷ s) n room =
    let (sound, complete) = parse_from_iff limit (c ∷ s) 0 n room in
    (
      λ h. (let (digits, value, small) = sound h in ((refl, digits), value, small)),
      λ a. complete (a.0.1, a.1, a.2),
    )

-- the digits behind an optional `+`
abbrev pub unplus : Text → Text
unplus [] = []
unplus (c ∷ s) = if c == b'+' then s else c ∷ s

pub parse_unsigned_iff :
    (limit : ℕ) (s : Text) (n : ℕ)
    → 0 < limit
    → (parse_unsigned limit s ≡ some n)
      ↔ (IsDigits (unplus s) × (digits_value 0 (unplus s) ≡ n) × (n < limit))
unfolding parse_unsigned
parse_unsigned_iff limit [] n room = ground arith
parse_unsigned_iff limit (c ∷ s) n room = elim (Bool-cases (c == b'+')) [
  | inl plus ↦ rw (plus) (parse_digits_iff limit s n room)
  | inr plain ↦ rw (plain) (parse_digits_iff limit (c ∷ s) n room)
]
