-- ===== src/Text/Laws.antt =====
-- Laws of the text operations.
use epay_sdk_rust.Common.{
  ℕ, ◌≤◌, ◌+◌, Bool, true, [], ◌∷◌, ◌++◌, ◌≡◌, refl, ◌↔◌, arith, all, all-append, length,
  length-append, Ordering, ◌<◌, ◌/◌, ◌%◌,
}
use epay_sdk_rust.Text.{Text, encode_utf8, as_bytes, len, text_eq, text_compare, lower}

pub text_eq_iff : (s t : Text) → (text_eq s t ≡ true) ↔ (s ≡ t)
unfolding text_eq
text_eq_iff [] [] = ground arith
text_eq_iff [] (b ∷ t) = ground arith
text_eq_iff (a ∷ s) [] = ground arith
text_eq_iff (a ∷ s) (b ∷ t) = ground (arith, text_eq_iff s t)

pub text_eq_refl : (s : Text) → text_eq s s ≡ true
text_eq_refl s = (text_eq_iff s s).1 refl

pub text_compare_eq : (s t : Text) → (text_compare s t ≡ Ordering.eq) ↔ (s ≡ t)
unfolding text_compare
text_compare_eq [] [] = ground arith
text_compare_eq [] (b ∷ t) = ground arith
text_compare_eq (a ∷ s) [] = ground arith
text_compare_eq (a ∷ s) (b ∷ t) = ground (arith, text_compare_eq s t)

pub text_compare_swap :
    (s t : Text) → (text_compare s t ≡ Ordering.lt) ↔ (text_compare t s ≡ Ordering.gt)
unfolding text_compare
text_compare_swap [] [] = ground arith
text_compare_swap [] (b ∷ t) = ground arith
text_compare_swap (a ∷ s) [] = ground arith
text_compare_swap (a ∷ s) (b ∷ t) = ground (arith, text_compare_swap s t)

pub text_compare_trans :
    (s t u : Text)
    → text_compare s t ≡ Ordering.lt
    → text_compare t u ≡ Ordering.lt
    → text_compare s u ≡ Ordering.lt
unfolding text_compare
text_compare_trans [] [] u h k = ground arith
text_compare_trans [] (b ∷ t) [] h k = ground arith
text_compare_trans [] (b ∷ t) (c ∷ u) h k = refl
text_compare_trans (a ∷ s) [] u h k = ground arith
text_compare_trans (a ∷ s) (b ∷ t) [] h k = ground arith
text_compare_trans (a ∷ s) (b ∷ t) (c ∷ u) h k = ground (arith, text_compare_trans s t u)

-- A test that only ASCII bytes pass holds of the bytes exactly when it holds of the characters.
pub all-as_bytes :
    (p : ℕ → Bool) → ((b : ℕ) → p b ≡ true → b < 0x80) → (s : Text) → all p (as_bytes s) ≡ all p s
unfolding as_bytes
all-as_bytes p ascii [] = refl
all-as_bytes p ascii (c ∷ s) = ground (
  arith,
  all-append p (encode_utf8 c) (as_bytes s),
  all-as_bytes p ascii s,
  ascii c,
  ascii (0xC0 + c / 64),
  ascii (0xE0 + c / 4096),
  ascii (0xF0 + c / 262144),
  ascii (0x80 + c % 64),
  ascii (0x80 + c / 64 % 64),
  ascii (0x80 + c / 4096 % 64),
)

pub len-append : (s t : Text) → len (s ++ t) ≡ len s + len t
unfolding len as_bytes
len-append [] t = omega arith
len-append (c ∷ s) t = grind (arith, len-append s t, length-append)

pub length-le-len : (s : Text) → length s ≤ len s
unfolding len as_bytes
length-le-len [] = omega arith
length-le-len (c ∷ s) = ground (arith, length-append (encode_utf8 c) (as_bytes s), length-le-len s)

pub lower_idempotent : (c : ℕ) → lower (lower c) ≡ lower c
unfolding lower
lower_idempotent c = ground arith
