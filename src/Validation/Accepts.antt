-- ===== src/Validation/Accepts.antt =====
-- Exactly what the field checks accept.
use epay_sdk_rust.Common.{
  ℕ, ◌≤◌, ◌<◌, ◌≡◌, refl, ◌↔◌, ◌⊎◌, inl, inr, Bool, true, false, Option, none, some, arith,
  Bool-cases, length, all,
}
use epay_sdk_rust.Text.{Text, len, text_eq, is_whitespace, is_ascii_alphanumeric, trim}
use epay_sdk_rust.Text.Laws.{text_eq_iff, all-as_bytes}
use epay_sdk_rust.Text.Trim.{IsVisible, trim_visible}
use epay_sdk_rust.Text.Ascii.{len_of_ascii, All_of_all, is_ascii_alphanumeric_ascii}
use epay_sdk_rust.Error.{ok}
use epay_sdk_rust.Validation.{
  is_out_trade_no_byte, validate_out_trade_no, validate_trade_no, Identifier, non_empty, one_of,
  exactly_one_identifier,
}

is_out_trade_no_byte_ascii : (c : ℕ) → is_out_trade_no_byte c ≡ true → c < 0x80
unfolding is_out_trade_no_byte
is_out_trade_no_byte_ascii c h = ground arith

out_trade_no_byte_visible : (c : ℕ) → is_out_trade_no_byte c ≡ true → is_whitespace c ≡ false
unfolding is_out_trade_no_byte is_whitespace
out_trade_no_byte_visible c h = ground arith

alphanumeric_visible : (c : ℕ) → is_ascii_alphanumeric c ≡ true → is_whitespace c ≡ false
unfolding is_ascii_alphanumeric is_whitespace
alphanumeric_visible c h = ground arith

-- The tests on a number, for an ASCII character test that refuses white space.
module _ (p : ℕ → Bool) (ascii : (c : ℕ) → p c ≡ true → c < 0x80)
    (visible : (c : ℕ) → p c ≡ true → is_whitespace c ≡ false) (s : Text) (h : all p s ≡ true) where
  accepted_len : len s ≡ length s
  accepted_len = len_of_ascii s (All_of_all p (λ c. c < 0x80) s ascii h)

  accepted_trim : text_eq (trim s) s ≡ true
  accepted_trim = (text_eq_iff (trim s) s).1 (trim_visible s (All_of_all p IsVisible s visible h))

-- A merchant order number is accepted exactly when it has 1 to 64 characters, all of them ASCII
-- letters, digits or one of `.`, `_`, `|`, `-`.
pub validate_out_trade_no_iff :
    (s : Text)
    → (validate_out_trade_no s ≡ ok tt)
      ↔ ((1 ≤ length s) × (length s ≤ 64) × (all is_out_trade_no_byte s ≡ true))
unfolding validate_out_trade_no
validate_out_trade_no_iff s = elim (Bool-cases (all is_out_trade_no_byte s)) [
  | inl good ↦ ground (
    arith,
    all-as_bytes is_out_trade_no_byte is_out_trade_no_byte_ascii s,
    accepted_len is_out_trade_no_byte is_out_trade_no_byte_ascii out_trade_no_byte_visible s good,
    accepted_trim is_out_trade_no_byte is_out_trade_no_byte_ascii out_trade_no_byte_visible s good,
  )
  | inr bad ↦ ground (arith, all-as_bytes is_out_trade_no_byte is_out_trade_no_byte_ascii s)
]

-- A gateway order number is accepted exactly when it has 1 to 128 ASCII letters and digits.
validate_trade_no_iff :
    (s : Text)
    → (validate_trade_no s ≡ ok tt)
      ↔ ((1 ≤ length s) × (length s ≤ 128) × (all is_ascii_alphanumeric s ≡ true))
unfolding validate_trade_no
validate_trade_no_iff s = elim (Bool-cases (all is_ascii_alphanumeric s)) [
  | inl good ↦ ground (
    arith,
    all-as_bytes is_ascii_alphanumeric is_ascii_alphanumeric_ascii s,
    accepted_len is_ascii_alphanumeric is_ascii_alphanumeric_ascii alphanumeric_visible s good,
    accepted_trim is_ascii_alphanumeric is_ascii_alphanumeric_ascii alphanumeric_visible s good,
  )
  | inr bad ↦ ground (arith, all-as_bytes is_ascii_alphanumeric is_ascii_alphanumeric_ascii s)
]

one_of_sound :
    (t o : Option Text) (id : Identifier)
    → one_of t o ≡ ok id
    → ((v : Text) × (t ≡ some v)
        × (o ≡ none)
        × (validate_trade_no v ≡ ok tt)
        × (id ≡ Identifier.trade_no v))
      ⊎ ((v : Text) × (t ≡ none)
          × (o ≡ some v)
          × (validate_out_trade_no v ≡ ok tt)
          × (id ≡ Identifier.out_trade_no v))
unfolding one_of
one_of_sound (some t) none id h = inl (t, refl, refl, ground arith, ground arith)
one_of_sound none (some o) id h = inr (o, refl, refl, ground arith, ground arith)
one_of_sound none none id h = cc
one_of_sound (some t) (some o) id h = cc

one_of_complete :
    (t o : Option Text) (id : Identifier)
    → ((v : Text) × (t ≡ some v)
        × (o ≡ none)
        × (validate_trade_no v ≡ ok tt)
        × (id ≡ Identifier.trade_no v))
      ⊎ ((v : Text) × (t ≡ none)
          × (o ≡ some v)
          × (validate_out_trade_no v ≡ ok tt)
          × (id ≡ Identifier.out_trade_no v))
    → one_of t o ≡ ok id
unfolding one_of
one_of_complete t o id (inl (v, et, eo, hv, e)) = rw (et, eo, hv, e)
one_of_complete t o id (inr (v, et, eo, hv, e)) = rw (et, eo, hv, e)

-- The identifier of a query or refund: it is found exactly when one of the two numbers is given
-- and not empty, the other is absent or empty, and the given one passes its own check; it is then
-- that number, under its own kind.
exactly_one_identifier_iff :
    (t o : Option Text) (id : Identifier)
    → (exactly_one_identifier t o ≡ ok id) ↔ (
        ((v : Text) × (non_empty t ≡ some v)
          × (non_empty o ≡ none)
          × (validate_trade_no v ≡ ok tt)
          × (id ≡ Identifier.trade_no v))
        ⊎ ((v : Text) × (non_empty t ≡ none)
            × (non_empty o ≡ some v)
            × (validate_out_trade_no v ≡ ok tt)
            × (id ≡ Identifier.out_trade_no v)))
exactly_one_identifier_iff t o id = (
  unfold exactly_one_identifier in one_of_sound (non_empty t) (non_empty o) id,
  unfold exactly_one_identifier in one_of_complete (non_empty t) (non_empty o) id,
)
