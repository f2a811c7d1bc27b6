-- ===== src/Text/Decimal/RoundTrip.antt =====
-- What is printed in decimal is read back.
use epay_sdk_rust.Common.{
  ℕ, zero, suc, ◌+◌, ◌/◌, ◌%◌, ◌≤◌, ◌<◌, ◌≡◌, refl, ◌∙◌, false, some, List, [], ◌∷◌, arith, is_nil,
  All,
}
use epay_sdk_rust.Text.Decimal.{show_from, to_string, parse_from, parse_digits, parse_unsigned}

abbrev pub IsDigit : ℕ → Type 0
IsDigit c = (b'0' ≤ c) × (c ≤ b'9')

show_from-IsDigit :
    (f n : ℕ) (out : List ℕ) → n < f → All IsDigit out → All IsDigit (show_from f n out)
unfolding show_from
show_from-IsDigit zero n out h k = absurd (omega arith)
show_from-IsDigit (suc f) n out h k =
    ground (arith, k, show_from-IsDigit f (n / 10) ((b'0' + n % 10) ∷ out))

pub to_string-IsDigit : (n : ℕ) → All IsDigit (to_string n)
unfolding to_string
to_string-IsDigit n = show_from-IsDigit (suc n) n [] (omega arith) tt

show_from-ne-nil : (f n : ℕ) (out : List ℕ) → n < f → is_nil (show_from f n out) ≡ false
unfolding show_from
show_from-ne-nil zero n out h = absurd (omega arith)
show_from-ne-nil (suc f) n out h =
    ground (arith, show_from-ne-nil f (n / 10) ((b'0' + n % 10) ∷ out))

pub to_string-ne-nil : (n : ℕ) → is_nil (to_string n) ≡ false
unfolding to_string
to_string-ne-nil n = show_from-ne-nil (suc n) n [] (omega arith)

parse_from-show_from :
    (limit f n : ℕ) (out : List ℕ)
    → n < f
    → n < limit
    → parse_from limit 0 (show_from f n out) ≡ parse_from limit n out
unfolding show_from parse_from
parse_from-show_from limit zero n out h k = absurd (omega arith)
parse_from-show_from limit (suc f) n out h k =
    ground (arith, parse_from-show_from limit f (n / 10) ((b'0' + n % 10) ∷ out))

parse_digits-parse_from :
    (limit : ℕ) (s : List ℕ) → is_nil s ≡ false → parse_digits limit s ≡ parse_from limit 0 s
unfolding parse_digits
parse_digits-parse_from limit [] h = cc
parse_digits-parse_from limit (c ∷ s) h = refl

pub parse_digits-to_string : (limit n : ℕ) → n < limit → parse_digits limit (to_string n) ≡ some n
unfolding to_string
parse_digits-to_string limit n h =
    parse_digits-parse_from limit (show_from (suc n) n [])
      (show_from-ne-nil (suc n) n [] (omega arith))
    ∙ parse_from-show_from limit (suc n) n [] (omega arith) h
    ∙ unfold parse_from in refl

parse_unsigned_of_digits :
    (limit : ℕ) (s : List ℕ) → All IsDigit s → parse_unsigned limit s ≡ parse_digits limit s
unfolding parse_unsigned parse_digits
parse_unsigned_of_digits limit [] h = refl
parse_unsigned_of_digits limit (c ∷ s) (hc, hs) = ground arith

pub parse_unsigned-to_string :
    (limit n : ℕ) → n < limit → parse_unsigned limit (to_string n) ≡ some n
parse_unsigned-to_string limit n h =
    parse_unsigned_of_digits limit (to_string n) (to_string-IsDigit n)
    ∙ parse_digits-to_string limit n h
