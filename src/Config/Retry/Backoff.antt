-- ===== src/Config/Retry/Backoff.antt =====
-- The delays between attempts.
use epay_sdk_rust.Common.{
  ℕ, zero, suc, ◌-◌, ◌*◌, ◌^◌, ◌≤◌, ◌<◌, min, ◌≡◌, inl, inr, arith, ◌==◌, Bool-cases,
}
use epay_sdk_rust.Config.Retry.{Duration, duration_limit, RetryPolicy, with_backoff, backoff}
use native.Mathlib.Nat.{pow-suc}

pow_mono : (a b : ℕ) → a ≤ b → 2 ^ a ≤ 2 ^ b
pow_mono a zero h = ground arith
pow_mono a (suc b) h = elim (Bool-cases (a == suc b)) [
  | inl e ↦ ground arith
  | inr ne ↦ omega (arith, pow_mono a b (ground arith), pow-suc 2 b)
]

product_mono : (d a b : ℕ) → a ≤ b → d * 2 ^ a ≤ d * 2 ^ b
product_mono d a b h = grind (arith, pow_mono a b h)

-- The delay before a retry is the initial one, doubled for each retry before it and 31 times at
-- most, cut off at the policy's upper bound: leaving the range of `Duration` on the way changes
-- nothing, because the bound is a `Duration`.
backoff-eq-doubling :
    (policy : RetryPolicy) (i : ℕ)
    → policy.max_backoff < duration_limit
    → backoff policy i ≡ min (policy.initial_backoff * 2 ^ min (i - 1) 31) policy.max_backoff
unfolding backoff
backoff-eq-doubling policy i h = ground arith

-- No delay exceeds the policy's upper bound, and the delays never shrink from one retry to a later
-- one.
backoff_bounds :
    (policy : RetryPolicy) (i j : ℕ)
    → i ≤ j
    → (backoff policy i ≤ backoff policy j) × (backoff policy j ≤ policy.max_backoff)
unfolding backoff
backoff_bounds policy i j h =
    ground (arith, product_mono policy.initial_backoff (min (i - 1) 31) (min (j - 1) 31))

-- A back-off window set by the caller is consistent, whatever the two values: the first delay is
-- within the bound.
with_backoff-backoff :
    (policy : RetryPolicy) (initial limit : Duration)
    → initial < duration_limit
    → backoff (with_backoff policy initial limit) 1 ≡ initial
unfolding backoff with_backoff
with_backoff-backoff policy initial limit h = ground arith
