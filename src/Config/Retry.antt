-- ===== src/Config/Retry.antt =====
-- config.rs: the retry policy. A `Duration` is its number of nanoseconds.
pub mod Backoff
use epay_sdk_rust.Common.{
  ℕ, ◌-◌, ◌*◌, ◌^◌, min, max, Bool, ◌&&◌, Option, none, some, ltb, if◌then◌else◌,
}
use epay_sdk_rust.Error.{Error, is_retryable}

abbrev pub Duration : Type 0
Duration = ℕ

abbrev pub second : ℕ
second = 1_000_000_000

abbrev pub millisecond : ℕ
millisecond = 1_000_000

-- `Duration` holds its seconds in a `u64`.
abbrev pub duration_limit : ℕ
duration_limit = 2 ^ 64 * second

-- `Duration::checked_mul`
unfoldable pub checked_mul : Duration → ℕ → Option Duration
checked_mul d k = if ltb (d * k) duration_limit then some (d * k) else none

pub record RetryPolicy : Type 0 where
  pub max_retries : ℕ
  pub initial_backoff : Duration
  pub max_backoff : Duration

-- `RetryPolicy::NONE`
abbrev pub no_retries : RetryPolicy
no_retries = record { max_retries = 0; initial_backoff = 0; max_backoff = 0 }

-- `RetryPolicy::new`
unfoldable pub new : ℕ → RetryPolicy
new max_retries = record {
  max_retries = max_retries;
  initial_backoff = 200 * millisecond;
  max_backoff = 2 * second;
}

-- `RetryPolicy::reads`
unfoldable pub reads : RetryPolicy
unfolding new
reads = new 2

-- `RetryPolicy::with_backoff`
unfoldable pub with_backoff : RetryPolicy → Duration → Duration → RetryPolicy
with_backoff policy initial limit = record policy {
  initial_backoff = initial;
  max_backoff = max limit initial;
}

-- `RetryPolicy::backoff`
unfoldable pub backoff : RetryPolicy → ℕ → Duration
unfolding checked_mul
backoff policy retry =
    let exponent = min (retry - 1) 31 in
    elim (checked_mul policy.initial_backoff (2 ^ exponent)) [
      | none ↦ policy.max_backoff
      | some delay ↦ min delay policy.max_backoff
    ]

-- `RetryPolicy::should_retry`
unfoldable pub should_retry : RetryPolicy → ℕ → Error → Bool
should_retry policy retries_so_far error =
    ltb retries_so_far policy.max_retries && is_retryable error
