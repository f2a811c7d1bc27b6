-- ===== src/Serde/Numerals.antt =====
-- What the parsers and the conversions of the lenient integers read.
use epay_sdk_rust.Common.{
  ℕ, zero, suc, ◌<◌, ◌≡◌, refl, sym, ap, ◌∙◌, ◌↔◌, ◌⊎◌, inl, inr, true, false, Option, none, some,
  [], ◌∷◌, arith, ◌==◌, if◌then◌else◌, Bool-cases, is_nil,
}
use epay_sdk_rust.Text.{Text}
use epay_sdk_rust.Common.Int.{ℤ, pos, negsuc}
use epay_sdk_rust.Text.Decimal.{parse_digits, parse_unsigned}
use epay_sdk_rust.Serde.{
  minus, try_signed, try_unsigned, parse_negative, parse_positive, parse_signed, mapped,
}
use epay_sdk_rust.Serde.Digits.{
  digits_value, IsDigits, parse_digits_iff, unplus, parse_unsigned_iff,
}

-- the value lies in `-half .. half - 1`
abbrev pub InSigned : ℕ → ℤ → Type 0
InSigned half (pos n) = n < half
InSigned half (negsuc n) = n < half

pub try_signed_iff :
    (half : ℕ) (z v : ℤ) → (try_signed half z ≡ some v) ↔ ((z ≡ v) × InSigned half v)
unfolding try_signed
try_signed_iff half (pos n) (pos m) = ground arith
try_signed_iff half (pos n) (negsuc m) = ground arith
try_signed_iff half (negsuc n) (pos m) = ground arith
try_signed_iff half (negsuc n) (negsuc m) = ground arith

pub try_unsigned_iff :
    (limit : ℕ) (z : ℤ) (n : ℕ) → (try_unsigned limit z ≡ some n) ↔ ((z ≡ pos n) × (n < limit))
unfolding try_unsigned
try_unsigned_iff limit (pos m) n = ground arith
try_unsigned_iff limit (negsuc m) n = ground arith

mapped_iff :
    (f : ℕ → ℤ) (o : Option ℕ) (z : ℤ)
    → (mapped f o ≡ some z) ↔ ((n : ℕ) × (o ≡ some n) × (f n ≡ z))
mapped_iff f none z = (λ h. cc, λ a. cc (a.1))
mapped_iff f (some n) z = (λ h. (n, refl, cc (h)), λ a. cc (a.1, a.2))

-- A decimal numeral: digits behind a `-`, or behind an optional `+`.
abbrev pub IsNumeral : Text → ℤ → Type 0
IsNumeral [] z = true ≡ false
IsNumeral (c ∷ s) z =
    ((c == b'-') ≡ true) × IsDigits s × (minus (digits_value 0 s) ≡ z)
    ⊎ ((c == b'-') ≡ false)
      × IsDigits (unplus (c ∷ s))
      × (pos (digits_value 0 (unplus (c ∷ s))) ≡ z)

minus_range : (half n : ℕ) (z : ℤ) → minus n ≡ z → 0 < half → (n < suc half) ↔ InSigned half z
minus_range half zero (pos m) e room = ground arith
minus_range half zero (negsuc m) e room = cc (e)
minus_range half (suc n) (pos m) e room = cc (e)
minus_range half (suc n) (negsuc m) e room = ground arith

pos_range : (half n : ℕ) (z : ℤ) → pos n ≡ z → (n < half) ↔ InSigned half z
pos_range half n (pos m) e = ground arith
pos_range half n (negsuc m) e = cc (e)

parse_negative_iff :
    (half : ℕ) (s : Text) (z : ℤ)
    → 0 < half
    → (parse_negative half s ≡ some z)
      ↔ (IsDigits s × (minus (digits_value 0 s) ≡ z) × InSigned half z)
unfolding parse_negative
parse_negative_iff half s z room =
    let maps = mapped_iff minus (parse_digits (suc half) s) z in
    (
      λ h.
          (let (n, read, e) = maps.0 h in
            let (digits, value, small) = (parse_digits_iff (suc half) s n (omega arith)).0 read in
            (digits, ap minus value ∙ e, (minus_range half n z e room).0 small)),
      λ a. maps.1 (
        digits_value 0 s,
        (parse_digits_iff (suc half) s (digits_value 0 s) (omega arith)).1
            (a.0, refl, (minus_range half (digits_value 0 s) z a.1 room).1 a.2),
        a.1,
      ),
    )

parse_positive_iff :
    (half : ℕ) (s : Text) (z : ℤ)
    → 0 < half
    → (parse_positive half s ≡ some z)
      ↔ (IsDigits (unplus s) × (pos (digits_value 0 (unplus s)) ≡ z) × InSigned half z)
unfolding parse_positive
parse_positive_iff half s z room =
    let maps = mapped_iff pos (parse_unsigned half s) z in
    (
      λ h.
          (let (n, read, e) = maps.0 h in
            let (digits, value, small) = (parse_unsigned_iff half s n room).0 read in
            (digits, ap pos value ∙ e, (pos_range half n z e).0 small)),
      λ a. maps.1 (
        digits_value 0 (unplus s),
        (parse_unsigned_iff half s (digits_value 0 (unplus s)) room).1
            (a.0, refl, (pos_range half (digits_value 0 (unplus s)) z a.1).1 a.2),
        a.1,
      ),
    )

parse_signed_iff :
    (half : ℕ) (s : Text) (z : ℤ)
    → 0 < half
    → (parse_signed half s ≡ some z) ↔ (IsNumeral s z × InSigned half z)
unfolding parse_signed
parse_signed_iff half [] z room = ground arith
parse_signed_iff half (c ∷ s) z room = elim (Bool-cases (c == b'-')) [
  | inl dash ↦
      let iff = parse_negative_iff half s z room in
      let same : parse_signed half (c ∷ s) ≡ parse_negative half s = rw (dash) in
      (
        λ h. (let (d, v, r) = iff.0 (sym same ∙ h) in (inl (dash, d, v), r)),
        λ a. elim a.0 [
          | inl (_, d, v) ↦ same ∙ iff.1 (d, v, a.1)
          | inr (plain, _, _) ↦ cc (plain, dash)
        ],
      )
  | inr plain ↦
      let iff = parse_positive_iff half (c ∷ s) z room in
      let same : parse_signed half (c ∷ s) ≡ parse_positive half (c ∷ s) = rw (plain) in
      (
        λ h. (let (d, v, r) = iff.0 (sym same ∙ h) in (inr (plain, d, v), r)),
        λ a. elim a.0 [
          | inl (dash, _, _) ↦ cc (plain, dash)
          | inr (_, d, v) ↦ same ∙ iff.1 (d, v, a.1)
        ],
      )
]

pub lenient_text :
    (half : ℕ) (s : Text) (z : ℤ)
    → 0 < half
    → ((if is_nil s then some (pos 0) else parse_signed half s) ≡ some z)
      ↔ (((is_nil s ≡ true) × (pos 0 ≡ z) ⊎ IsNumeral s z) × InSigned half z)
lenient_text half [] (pos n) room = ground arith
lenient_text half [] (negsuc n) room = ground arith
lenient_text half (c ∷ s) z room =
    let iff = parse_signed_iff half (c ∷ s) z room in
    (
      λ h. (let (numeral, inside) = iff.0 h in (inr numeral, inside)),
      λ a. elim a.0 [ inl (empty, _) ↦ cc (empty) | inr numeral ↦ iff.1 (numeral, a.1) ],
    )
