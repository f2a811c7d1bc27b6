-- ===== src/Crates/Digest.antt =====
-- The packages `md5` and `constant_time_eq`.
use epay_sdk_rust.Common.{
  ℕ, ◌+◌, ◌*◌, ◌%◌, ◌<◌, ◌≡◌, refl, ◌↔◌, Bool, true, [], ◌∷◌, arith, length, All,
}
use epay_sdk_rust.Text.{Bytes, text_eq}
use epay_sdk_rust.Text.Laws.{text_eq_iff}

pub record Digest : Type 0 where
  -- `Md5::digest` of the concatenated updates
  pub md5 : Bytes → Bytes
  pub constant_time_eq : Bytes → Bytes → Bool
  pub length-md5 : (bytes : Bytes) → length (md5 bytes) ≡ 16
  pub md5-IsByte : (bytes : Bytes) → All (λ b. b < 256) (md5 bytes)
  pub constant_time_eq_iff : (a b : Bytes) → (constant_time_eq a b ≡ true) ↔ (a ≡ b)

-- A digest that folds the input into one byte.
unfoldable pub fold : ℕ → Bytes → ℕ
fold acc [] = acc
fold acc (b ∷ bytes) = fold ((acc * 31 + b) % 256) bytes

unfoldable pub toy_md5 : Bytes → Bytes
unfolding fold
toy_md5 bytes =
    let b = fold 7 bytes % 256 in
    b ∷ 1 ∷ 2 ∷ 3 ∷ 4 ∷ 5 ∷ 6 ∷ 7 ∷ 8 ∷ 9 ∷ 10 ∷ 11 ∷ 12 ∷ 13 ∷ 14 ∷ 255 ∷ []

pub length-toy_md5 : (bytes : Bytes) → length (toy_md5 bytes) ≡ 16
unfolding toy_md5
length-toy_md5 bytes = refl

pub toy_md5-IsByte : (bytes : Bytes) → All (λ b. b < 256) (toy_md5 bytes)
unfolding toy_md5
toy_md5-IsByte bytes = omega arith

unfoldable pub toy_digest : Digest
unfolding toy_md5 text_eq
toy_digest = record {
  md5 = toy_md5;
  constant_time_eq = text_eq;
  length-md5 = length-toy_md5;
  md5-IsByte = toy_md5-IsByte;
  constant_time_eq_iff = text_eq_iff;
}
