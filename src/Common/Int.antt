-- ===== src/Common/Int.antt =====
-- Signed integers over the native numbers, under the library's names: `i32`, `i64` and the values
-- of decimals.
use Prim.Native.Nat.{ℕ, suc}
use mathlib.Core.Path.{◌≡◌}
use mathlib.Core.Logic.{◌↔◌}
use mathlib.Core.Bool.{Bool, true, false}
use native.Mathlib.Omega.{arith}
use epay_sdk_rust.Common.Tests.{◌==◌, leb}

-- `negsuc n` is -(n + 1).
pub data ℤ : Type 0 where
  pos : ℕ → ℤ
  negsuc : ℕ → ℤ

abbrev pub is_negative : ℤ → Bool
is_negative (pos n) = false
is_negative (negsuc n) = true

abbrev pub int_eq : ℤ → ℤ → Bool
int_eq (pos a) (pos b) = a == b
int_eq (negsuc a) (negsuc b) = a == b
int_eq _ _ = false

-- the value lies in `-limit .. limit`, the limit itself left out
abbrev pub in_range : ℕ → ℤ → Bool
in_range limit (pos n) = leb (suc n) limit
in_range limit (negsuc n) = leb (suc n) limit

pub int_eq_iff : (a b : ℤ) → (int_eq a b ≡ true) ↔ (a ≡ b)
int_eq_iff (pos a) (pos b) = ground arith
int_eq_iff (negsuc a) (negsuc b) = ground arith
int_eq_iff (pos a) (negsuc b) = ground arith
int_eq_iff (negsuc a) (pos b) = ground arith

pub pos-injective : {a b : ℕ} → pos a ≡ pos b → a ≡ b
pos-injective h = cc
