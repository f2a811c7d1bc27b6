-- ===== src/Money/RoundTrip.antt =====
-- Amounts through fen and through the wire text.
use epay_sdk_rust.Common.{
  ℕ, ◌/◌, ◌^◌, ◌<◌, ◌≡◌, sym, ◌∙◌, inl, inr, true, false, [], ◌∷◌, arith, ltb, if◌then◌else◌,
  ltb→lt, lt→ltb, Bool-cases, Option-cases, All, All-append,
}
use epay_sdk_rust.Common.Int.{pos}
use epay_sdk_rust.Text.{Text, is_whitespace, trim}
use epay_sdk_rust.Text.Decimal.{to_string}
use epay_sdk_rust.Text.Decimal.RoundTrip.{IsDigit, to_string-IsDigit}
use epay_sdk_rust.Text.Trim.{IsVisible, trim_visible}
use epay_sdk_rust.Crates.Decimals.{Decimals, is_le_zero, i64_limit, cents_text}
use epay_sdk_rust.Error.{ok, err}
use epay_sdk_rust.Error.Codes.{money_out_of_range}
use epay_sdk_rust.Money.{Money, from_yuan_str, from_fen, try_to_fen, to_epay_string, money_eq}
use epay_sdk_rust.Money.Exact.{HasCents, new_iff}

digits-IsVisible : (s : Text) → All IsDigit s → All IsVisible s
digits-IsVisible [] h = tt
digits-IsVisible (c ∷ s) (hc, hs) = (unfold is_whitespace in ground arith, digits-IsVisible s hs)

pub trim-cents_text : (n : ℕ) → trim (cents_text n) ≡ cents_text n
unfolding cents_text
trim-cents_text n = trim_visible (cents_text n) (
    All-append IsVisible (to_string (n / 100)) _
      (digits-IsVisible (to_string (n / 100)) (to_string-IsDigit (n / 100)))
      (unfold is_whitespace in ground arith))

module _ (dec : Decimals) where
  open dec use {Decimal, scaled}

  -- Every amount that can be built is whole hundredths, and in fen it is that number, or an error
  -- exactly when the number does not fit an `i64`: it never saturates.
  try_to_fen_lem :
      (m : Money dec) (n : ℕ)
      → HasCents dec m n
      → try_to_fen dec m ≡ (if ltb n i64_limit then ok (pos n) else err money_out_of_range)
  unfolding try_to_fen
  try_to_fen_lem m n h =
      let hundred = dec.scaled-from_int 100 (omega arith) in
      elim (Option-cases (dec.checked_mul m.value (dec.from_int (pos 100)))) [
        | inl e ↦ elim (Bool-cases (ltb n i64_limit)) [
          | inl small ↦
              let (r, found) =
                dec.mul_in_range m.value (dec.from_int (pos 100)) n h hundred
                  (ltb→lt n i64_limit small) in
              cc (e, found)
          | inr big ↦ ground (arith, e, big)
        ]
        | inr (r, e) ↦
            let exact = dec.mul_hundred m.value (dec.from_int (pos 100)) r n h hundred e in
            ground (arith, e, dec.to_i64_lem r n exact)
      ]

  -- A positive `i64` number of fen becomes an amount that gives the number back.
  pub try_to_fen-from_fen :
      (n : ℕ)
      → 0 < n
      → n < i64_limit
      → (m : Money dec) × (from_fen dec (pos n) ≡ ok m) × (try_to_fen dec m ≡ ok (pos n))
  unfolding from_fen
  try_to_fen-from_fen n h k =
      let hundred = dec.scaled-from_int 100 (omega arith) in
      let whole = dec.scaled-from_int n (omega arith) in
      let quotient =
        dec.div_hundred (dec.from_int (pos n)) (dec.from_int (pos 100)) n whole hundred k in
      let (m, built, has) =
        (new_iff dec (dec.div (dec.from_int (pos n)) (dec.from_int (pos 100))) n).1 (h, quotient) in
      let positive : is_le_zero (pos n) ≡ false = ground arith in
      (m, rw positive built, try_to_fen_lem m n has ∙ rw (lt→ltb n i64_limit k))

  -- An amount below 2 ^ 96 hundredths survives its wire text: it is printed with two decimal
  -- places, and the text is read back as the same amount.
  pub from_yuan_str-to_epay_string :
      (m : Money dec) (n : ℕ)
      → 0 < n
      → n < 2 ^ 96
      → HasCents dec m n
      → (to_epay_string dec m ≡ cents_text n)
        × ((m' : Money dec) × (from_yuan_str dec (to_epay_string dec m) ≡ ok m')
            × (money_eq dec m' m ≡ true))
  unfolding from_yuan_str to_epay_string money_eq
  from_yuan_str-to_epay_string m n positive fits h =
      let shown = dec.format_lem m.value n h in
      let (d, parsed, exact) = dec.from_str_lem n fits in
      let (m', built, has) = (new_iff dec d n).1 (positive, exact) in
      (
        shown,
        (
          m',
          rw (shown, trim-cents_text n, parsed) built,
          (dec.equal_iff m'.value m.value).1 (has ∙ sym h),
        ),
      )
